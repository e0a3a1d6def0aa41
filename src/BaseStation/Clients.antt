-- ===== src/BaseStation/Clients.antt =====
-- basestation.c, `basestation_send_position`: who gets a line, and who stays connected.
use iridium_sniffer.Base.{ℕ, ◌-◌, List, [], ◌∷◌, Bool, false, length, take, get_or, set, ◌≡◌}

-- `write` works on each of them.
abbrev pub AllStay : (ℕ → Bool) → List ℕ → Type 0
AllStay gone [] = Unit
AllStay gone (fd ∷ clients) = (gone fd ≡ false) × AllStay gone clients

-- The last client takes the place of the one behind `xs`.
abbrev dropped : List ℕ → ℕ → List ℕ
dropped clients i =
    take (length clients - 1) (set clients i (get_or clients (length clients - 1) 0))
