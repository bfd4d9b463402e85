-- ===== src/Js/Text.antt =====
-- JavaScript strings: lists of UTF-16 code units, with the methods that the Studio calls.
pub mod Trim
pub mod Split
pub mod Utf8
use Prim.Native.Char.{code}
use Prim.Native.String.{String}
use mathlib.Core.List.{reverse}
use beast_db.Prelude.{
  ℕ, ◌+◌, ◌-◌, ◌≡◌, refl, ◌↔◌, Bool, true, false, ◌&&◌, ◌||◌, List, [], ◌∷◌, ◌++◌, arith, ltb, leb,
  ◌==◌, if◌then◌else◌, length, drop, replicate, any,
}

abbrev pub Text : Type 0
Text = List ℕ

-- A literal of the basic plane: one code unit for each character.
abbrev pub units : String → Text
units String.[] = []
units (String.◌∷◌ c s) = code c ∷ units s

-- s === t
abbrev pub same : Text → Text → Bool
same [] [] = true
same [] (b ∷ t) = false
same (a ∷ s) [] = false
same (a ∷ s) (b ∷ t) = a == b && same s t

pub same_iff : (s t : Text) → (same s t ≡ true) ↔ (s ≡ t)
same_iff [] [] = (λ h. refl, λ h. refl)
same_iff [] (b ∷ t) = (λ h. cc, λ h. cc)
same_iff (a ∷ s) [] = (λ h. cc, λ h. cc)
same_iff (a ∷ s) (b ∷ t) = ground (arith, same_iff s t)

pub same_refl : (s : Text) → same s s ≡ true
same_refl s = (same_iff s s).1 refl

-- names.includes(s), set.has(s)
abbrev pub has : List Text → Text → Bool
has [] s = false
has (n ∷ names) s = same n s || has names s

-- White space and line terminators, as `trim` and `\s` take them.
abbrev pub spaces : List ℕ
spaces =
    9 ∷ 10 ∷ 11 ∷ 12 ∷ 13 ∷ 32 ∷ 0xa0 ∷ 0x1680 ∷ 0x2028 ∷ 0x2029 ∷ 0x202f ∷ 0x205f ∷ 0x3000 ∷ 0xfeff
    ∷ []

unfoldable pub is_space : ℕ → Bool
is_space u = any (λ c. c == u) spaces || (leb 0x2000 u && leb u 0x200a)

unfoldable pub trim_start : Text → Text
trim_start [] = []
trim_start (u ∷ s) = let rest = trim_start s in if is_space u then rest else u ∷ s

unfoldable pub trim : Text → Text
unfolding trim_start is_space
trim s = reverse (trim_start (reverse (trim_start s)))

unfoldable pub starts_with : Text → Text → Bool
starts_with s [] = true
starts_with [] (p ∷ ps) = false
starts_with (u ∷ s) (p ∷ ps) = u == p && starts_with s ps

unfoldable pub ends_with : Text → Text → Bool
unfolding starts_with
ends_with s p = starts_with (reverse s) (reverse p)

unfoldable pub includes : Text → Text → Bool
unfolding starts_with
includes [] p = starts_with [] p
includes (u ∷ s) p = starts_with (u ∷ s) p || includes s p

-- s.slice(-n), for 0 < n
unfoldable pub take_last : ℕ → Text → Text
take_last n s = drop (length s - n) s

-- s.padStart(n, "0")
unfoldable pub pad_start : ℕ → Text → Text
pad_start n s = replicate (n - length s) b'0' ++ s

-- parts.join(sep)
unfoldable pub join : Text → List Text → Text
join sep [] = []
join sep (p ∷ []) = p
join sep (p ∷ q ∷ ps) = p ++ (sep ++ join sep (q ∷ ps))

-- s.split(c), for one code unit c: at least one part.
split_from : ℕ → Text → Text → List Text
split_from c part [] = part ∷ []
split_from c part (u ∷ s) =
    let closed = part ∷ split_from c [] s in
    let longer = split_from c (part ++ u ∷ []) s in if u == c then closed else longer

unfoldable pub split : ℕ → Text → List Text
unfolding split_from
split c s = split_from c [] s

-- new Blob([s]).size: the bytes of UTF-8, where a surrogate with no partner becomes U+FFFD.
unfoldable pub utf8_size : Text → ℕ
utf8_size [] = 0
utf8_size (u ∷ []) = if ltb u 0x80 then 1 else if ltb u 0x800 then 2 else 3
utf8_size (u ∷ v ∷ s) =
    if ltb u 0x80
    then 1 + utf8_size (v ∷ s)
    else if ltb u 0x800
    then 2 + utf8_size (v ∷ s)
    else if (leb 0xd800 u && ltb u 0xdc00) && (leb 0xdc00 v && ltb v 0xe000)
    then 4 + utf8_size s
    else 3 + utf8_size (v ∷ s)
