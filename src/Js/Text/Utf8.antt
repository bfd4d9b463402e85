-- ===== src/Js/Text/Utf8.antt =====
-- UTF-8, as its standard describes it: a text is a list of code points, and each has its bytes.
use beast_db.Prelude.{
  ℕ, ◌+◌, ◌-◌, ◌*◌, ◌/◌, ◌%◌, ◌≤◌, ◌≡◌, refl, sym, ◌∙◌, Bool, true, false, ◌&&◌, ◌||◌, List, [],
  ◌∷◌, ◌++◌, arith, ltb, leb, length, length-append, if◌then◌else◌, Bool-cases, inl, inr,
}
use beast_db.Js.Text.{Text, utf8_size}

-- The byte with six bits of a code point.
abbrev tail_byte : ℕ → ℕ
tail_byte c = 0x80 + c % 64

-- The bytes of a code point.
abbrev pub bytes_of : ℕ → List ℕ
bytes_of c =
    if ltb c 0x80
    then c ∷ []
    else if ltb c 0x800
    then (0xc0 + c / 64) ∷ tail_byte c ∷ []
    else if ltb c 0x10000
    then (0xe0 + c / 4096) ∷ tail_byte (c / 64) ∷ tail_byte c ∷ []
    else (0xf0 + c / 262144) ∷ tail_byte (c / 4096) ∷ tail_byte (c / 64) ∷ tail_byte c ∷ []

-- A unit by itself is its code point; half a pair, or what has more than 16 bits, is U+FFFD.
abbrev pub lone : ℕ → ℕ
lone u = if leb 0xd800 u && (ltb u 0xe000 || leb 0x10000 u) then 0xfffd else u

abbrev pub paired : ℕ → ℕ → ℕ
paired u v = 0x10000 + (u - 0xd800) * 0x400 + (v - 0xdc00)

abbrev pub code_points : Text → List ℕ
code_points [] = []
code_points (u ∷ []) = lone u ∷ []
code_points (u ∷ v ∷ s) =
    if (leb 0xd800 u && ltb u 0xdc00) && (leb 0xdc00 v && ltb v 0xe000)
    then paired u v ∷ code_points s
    else lone u ∷ code_points (v ∷ s)

abbrev pub bytes : List ℕ → List ℕ
bytes [] = []
bytes (c ∷ cs) = bytes_of c ++ bytes cs

length-lone : (u : ℕ) → length (bytes_of (lone u)) ≡ utf8_size (u ∷ [])
unfolding utf8_size
length-lone u = ground arith

length-bytes :
    (c : ℕ) (cs : List ℕ) → length (bytes (c ∷ cs)) ≡ length (bytes_of c) + length (bytes cs)
length-bytes c cs = length-append (bytes_of c) (bytes cs)

length-bytes_of : (c : ℕ) → 0x10000 ≤ c → length (bytes_of c) ≡ 4
length-bytes_of c h = ground arith

abbrev is_pair : ℕ → ℕ → Bool
is_pair u v = (leb 0xd800 u && ltb u 0xdc00) && (leb 0xdc00 v && ltb v 0xe000)

is_pair_high : (u v : ℕ) → is_pair u v ≡ true → (ltb u 0x80 ≡ false) × (ltb u 0x800 ≡ false)
is_pair_high u v h = (ground (arith, h), ground (arith, h))

utf8_size-pair : (u v : ℕ) (s : Text) → is_pair u v ≡ true → utf8_size (u ∷ v ∷ s) ≡ 4 + utf8_size s
unfolding utf8_size
utf8_size-pair u v s h = let (one, two) = is_pair_high u v h in rw (h, one, two) refl

utf8_size-alone :
    (u v : ℕ) (s : Text)
    → is_pair u v ≡ false
    → utf8_size (u ∷ v ∷ s) ≡ utf8_size (u ∷ []) + utf8_size (v ∷ s)
unfolding utf8_size
utf8_size-alone u v s h = rw h (ground arith)

-- The size of a text is the number of its bytes in UTF-8.
pub utf8_size-eq-length : (s : Text) → utf8_size s ≡ length (bytes (code_points s))
utf8_size-eq-length [] = unfold utf8_size in refl
utf8_size-eq-length (u ∷ []) = sym (length-bytes (lone u) [] ∙ omega (arith, length-lone u))
utf8_size-eq-length (u ∷ v ∷ s) =
    let longer = utf8_size-eq-length (v ∷ s) in
    let shorter = utf8_size-eq-length s in
    elim (Bool-cases (is_pair u v)) [
      | inl e ↦ rw (e) (
          omega (
            arith,
            utf8_size-pair u v s e,
            shorter,
            length-bytes (paired u v) (code_points s),
            length-bytes_of (paired u v) (omega arith),
          ))
      | inr e ↦ rw (e) (
          omega (
            arith,
            utf8_size-alone u v s e,
            longer,
            length-lone u,
            length-bytes (lone u) (code_points (v ∷ s)),
          ))
    ]
