-- ===== src/Acars/Layout.antt =====
-- sbd_acars.c, `acars_parse_fallback`: the fields of a message, as they are laid out.
use iridium_sniffer.Base.{
  ℕ, zero, suc, ◌+◌, ◌-◌, List, [], ◌∷◌, ◌++◌, some, Bool, true, false, length, length-append, take,
  drop, take-front, drop-front, drop-drop, get_or, get_or-front, ltb, leb, ◌⊎◌, inl, inr, ◌≡◌, refl,
  ap, ◌∙◌, sym, arith,
}
use iridium_sniffer.Acars.{take_end, read_text, read_fields}

-- The characters of a message whose text is `rest` and whose last character is `last`.
abbrev pub message : ℕ → List ℕ → ℕ → List ℕ → ℕ → List ℕ → ℕ → List ℕ
message mode reg ack label blk_id rest last =
    mode ∷ (reg ++ (ack ∷ (label ++ (blk_id ∷ (rest ++ (last ∷ []))))))

-- The start of text, the number and the sequence of the message, the flight, and the text.
abbrev pub downlink : List ℕ → ℕ → List ℕ → List ℕ → List ℕ
downlink msg_num seq flight txt = 2 ∷ (msg_num ++ (seq ∷ (flight ++ txt)))

-- The end of text (3), or the end of a block that goes on (0x17).
abbrev pub IsEnd : ℕ → Bool → Type 0
IsEnd last cont = ((last ≡ 3) × (cont ≡ false)) ⊎ ((last ≡ 0x17) × (cont ≡ true))

drop-past {ℓ} :
    {A : Type ℓ} (xs ys : List A) (y : A) (n : ℕ)
    → length xs ≡ n
    → drop (suc n) (xs ++ (y ∷ ys)) ≡ ys
drop-past [] ys y zero h = refl
drop-past [] ys y (suc n) h = absurd (omega (arith, h))
drop-past (x ∷ xs) ys y zero h = absurd (omega (arith, h))
drop-past (x ∷ xs) ys y (suc n) h = drop-past xs ys y n (omega (arith, h))

get_or-drop : (xs : List ℕ) (n i : ℕ) → get_or xs (n + i) 0 ≡ get_or (drop n xs) i 0
get_or-drop xs zero i = ap (λ k. get_or xs k 0) (omega arith)
get_or-drop [] (suc n) i = refl
get_or-drop (x ∷ xs) (suc n) i =
    ap (λ k. get_or (x ∷ xs) k 0) {y = suc (n + i)} (omega arith) ∙ get_or-drop xs n i

take_end-marked :
    (rest : List ℕ) (last : ℕ) (cont : Bool)
    → IsEnd last cont
    → take_end (rest ++ (last ∷ [])) ≡ (rest, cont)
unfolding take_end
take_end-marked rest last cont e =
    let len : length (rest ++ (last ∷ [])) ≡ length rest + 1 = length-append rest (last ∷ []) in
    let more : ltb 0 (length (rest ++ (last ∷ []))) ≡ true = ground (arith, len) in
    let at : length (rest ++ (last ∷ [])) - 1 ≡ length rest = omega (arith, len) in
    let is : get_or (rest ++ (last ∷ [])) (length rest) 0 ≡ last =
      get_or-front rest [] last 0 _ refl in
    let front : take (length rest) (rest ++ (last ∷ [])) ≡ rest = take-front rest _ _ refl in
    elim e [
      | inl (l, c) ↦ rw (take_end, more, at, is, front, l, c) refl
      | inr (l, c) ↦ rw (take_end, more, at, is, front, l, c) refl
    ]

read_text-downlink :
    (msg_num flight txt : List ℕ) (seq : ℕ)
    → length msg_num ≡ 3
    → length flight ≡ 6
    → read_text true (downlink msg_num seq flight txt)
      ≡ record { msg_num = msg_num; msg_num_seq = seq; flight = flight; txt = some txt }
unfolding read_text
read_text-downlink msg_num flight txt seq n f =
    let behind = flight ++ txt in
    let some_left : ltb 0 (length (downlink msg_num seq flight txt)) ≡ true = ground arith in
    let enough : leb 11 (length (downlink msg_num seq flight txt)) ≡ true =
      ground (arith, length-append msg_num (seq ∷ behind), length-append flight txt, n, f) in
    let past : drop 4 (msg_num ++ (seq ∷ behind)) ≡ behind = drop-past msg_num behind seq 3 n in
    let all : drop 10 (msg_num ++ (seq ∷ behind)) ≡ txt =
      sym (drop-drop 6 4 (msg_num ++ (seq ∷ behind)))
      ∙ ap (drop 6) past
      ∙ drop-front flight txt 6 f in
    rw
      (
        read_text,
        some_left,
        enough,
        past,
        all,
        take-front msg_num (seq ∷ behind) 3 n,
        take-front flight txt 6 f,
        get_or-front msg_num behind seq 0 3 n,
      )
      refl

read_text-uplink :
    (txt : List ℕ)
    → read_text false (2 ∷ txt)
      ≡ record { msg_num = []; msg_num_seq = 0; flight = []; txt = some txt }
unfolding read_text
read_text-uplink txt =
    let some_left : ltb 0 (length (2 ∷ txt)) ≡ true = ground arith in rw (read_text, some_left) refl

module _ (mode ack blk_id last : ℕ) (reg label : List ℕ) (cont : Bool) (r : length reg ≡ 7)
    (l : length label ≡ 2) (e : IsEnd last cont) where
  laid_out :
      (ul : Bool) (rest : List ℕ)
      → read_fields ul (message mode reg ack label blk_id rest last) ≡ record {
        mode = mode;
        reg = reg;
        ack = ack;
        label = label;
        blk_id = blk_id;
        cont = cont;
        text = read_text ul rest;
      }
  unfolding read_fields
  laid_out ul rest =
      let end = rest ++ (last ∷ []) in
      let tail = label ++ (blk_id ∷ end) in
      let all = reg ++ (ack ∷ tail) in
      let past : drop 8 all ≡ tail = drop-past reg tail ack 7 r in
      let behind : drop 11 all ≡ end =
        sym (drop-drop 3 8 all) ∙ ap (drop 3) past ∙ drop-past label end blk_id 2 l in
      let block : get_or all 10 0 ≡ blk_id =
        get_or-drop all 8 2 ∙ ap (λ x. get_or x 2 0) past ∙ get_or-front label end blk_id 0 2 l in
      rw
        (
          read_fields,
          past,
          behind,
          block,
          take_end-marked rest last cont e,
          take-front reg (ack ∷ tail) 7 r,
          get_or-front reg tail ack 0 7 r,
          take-front label (blk_id ∷ end) 2 l,
        )
        refl

  -- A message with a registration of seven characters, a label of two, and the end of the text or of a
  -- block, is read field by field: from an aircraft with a message number of three characters and a
  -- flight of six in front of its text, and from the ground with the text alone.
  pub read_fields-message :
      (msg_num flight txt : List ℕ) (seq : ℕ)
      → length msg_num ≡ 3
      → length flight ≡ 6
      → (read_fields true (message mode reg ack label blk_id (downlink msg_num seq flight txt) last)
          ≡ record {
            mode = mode;
            reg = reg;
            ack = ack;
            label = label;
            blk_id = blk_id;
            cont = cont;
            text = record { msg_num = msg_num; msg_num_seq = seq; flight = flight; txt = some txt };
          })
        × (read_fields false (message mode reg ack label blk_id (2 ∷ txt) last) ≡ record {
          mode = mode;
          reg = reg;
          ack = ack;
          label = label;
          blk_id = blk_id;
          cont = cont;
          text = record { msg_num = []; msg_num_seq = 0; flight = []; txt = some txt };
        })
  read_fields-message msg_num flight txt seq n f = (
    rw (read_text-downlink msg_num flight txt seq n f) at
        (laid_out true (downlink msg_num seq flight txt)),
    rw (read_text-uplink txt) at (laid_out false (2 ∷ txt)),
  )
