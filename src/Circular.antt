-- ===== src/Circular.antt =====
-- The circular buffers of doppler_pos.c (`sat_buf_add`, `sat_buf_get`), web_map.c and main.c: an array,
-- the index that is written next, and the number of entries in use.
pub mod Contents
pub mod Lookup
use iridium_sniffer.Base.{
  ℕ, ◌+◌, ◌-◌, ◌%◌, List, [], ◌∷◌, ◌++◌, Option, none, some, length, get_elem?, set, take, drop,
  ltb, if◌then◌else◌,
}

pub record Circular {ℓ} (A : Type ℓ) : Type ℓ where
  pub cells : List A
  pub head : ℕ
  pub count : ℕ

module _ {ℓ} {A : Type ℓ} where
  -- The capacity.
  abbrev pub size : Circular A → ℕ
  size c = length c.cells

  -- `a[head] = v; head = (head + 1) % SIZE; if (count < SIZE) count++;`
  unfoldable pub push : Circular A → A → Circular A
  push c v = record {
    cells = set c.cells c.head v;
    head = (c.head + 1) % size c;
    count = if ltb c.count (size c) then c.count + 1 else c.count;
  }

  -- The entry at an index from the oldest on; none for the return of NULL.
  unfoldable pub get : Circular A → ℕ → Option A
  get c idx =
      let start = if ltb c.count (size c) then 0 else (c.head + size c - c.count) % size c in
      if ltb idx c.count then get_elem? c.cells ((start + idx) % size c) else none

  -- `a[(head - 1 - i + SIZE) % SIZE]`
  unfoldable pub recent : Circular A → ℕ → Option A
  recent c i = get_elem? c.cells ((c.head + size c - 1 - i) % size c)
