-- ===== src/Cin.antt =====
-- The Code Index Number table of firmware/main.c: how many of a packet's three bytes are MIDI data.
use midex_class_firmware.Base.{
  ℕ, ◌<◌, ◌≤◌, ◌≡◌, refl, true, List, [], ◌∷◌, ◌||◌, ltb, ◌==◌, ==_iff, if◌then◌else◌, get_or,
  passes_below, passes_below_sound, arith,
}

cin_table : List ℕ
cin_table = 0 ∷ 0 ∷ 2 ∷ 3 ∷ 3 ∷ 1 ∷ 2 ∷ 3 ∷ 3 ∷ 3 ∷ 3 ∷ 3 ∷ 2 ∷ 2 ∷ 3 ∷ 1 ∷ []

-- `cin_len[c]`, for a nibble `c`.
unfoldable pub cin_len : ℕ → ℕ
unfolding cin_table
cin_len c = get_or cin_table c 0

-- The same by cases, as table 4-1 of the USB-MIDI specification groups the numbers.
abbrev pub len_by_cases : ℕ → ℕ
len_by_cases c =
    if ltb c 2
    then 0
    else if (c == 5) || (c == 15)
    then 1
    else if (c == 2) || (c == 6) || (c == 12) || (c == 13)
    then 2
    else 3

same_table : passes_below 16 (λ c. cin_len c == len_by_cases c) ≡ true
unfolding passes_below cin_len
same_table = refl

pub cin_len_lem : (c : ℕ) → c < 16 → cin_len c ≡ len_by_cases c
cin_len_lem c h =
    (==_iff _ _).0 (passes_below_sound 16 (λ c. cin_len c == len_by_cases c) c same_table h)

pub cin_len-le_3 : (c : ℕ) → c < 16 → cin_len c ≤ 3
cin_len-le_3 c h = ground (arith, cin_len_lem c h)
