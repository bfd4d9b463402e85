-- ===== src/Partitions/Groups.antt =====
-- buildPartitionList: the map of partitions.
use beast_db.Prelude.{
  ℕ, ◌≡◌, ◌≢◌, refl, Bool, some, [], ◌∷◌, arith, is_some, All, ◌==◌, ==_refl, if◌then◌else◌,
  Bool-cases, inl, inr,
}
use beast_db.Partitions.{Group, Groups, get_group, set_group}

pub get_group-set_group :
    (p q : ℕ) (g : Group) (m : Groups)
    → get_group (set_group p g m) q ≡ (if p == q then some g else get_group m q)
unfolding get_group set_group
get_group-set_group p q g [] = refl
get_group-set_group p q g ((i, h) ∷ m) = ground (arith, get_group-set_group p q g m)

-- Each prefix stands once.
abbrev pub Distinct : Groups → Type 0
Distinct [] = Unit
Distinct ((p, g) ∷ m) = All (λ e. e.0 ≢ p) m × Distinct m

set_group-All :
    (P : ℕ → Type 0) (p : ℕ) (g : Group) (m : Groups)
    → P p
    → All (λ e. P e.0) m
    → All (λ e. P e.0) (set_group p g m)
unfolding set_group
set_group-All P p g [] h k = (h, tt)
set_group-All P p g ((q, i) ∷ m) h (k, ks) = elim (Bool-cases (q == p)) [
  | inl e ↦ rw e (k, ks)
  | inr e ↦ rw e (k, set_group-All P p g m h ks)
]

pub set_group-Distinct : (p : ℕ) (g : Group) (m : Groups) → Distinct m → Distinct (set_group p g m)
unfolding set_group
set_group-Distinct p g [] h = (tt, tt)
set_group-Distinct p g ((q, i) ∷ m) (k, ks) = elim (Bool-cases (q == p)) [
  | inl e ↦ rw e (k, ks)
  | inr e ↦ rw e (
    set_group-All (λ x. x ≢ q) p g m (λ same. ground (arith, ==_refl q)) k,
    set_group-Distinct p g m ks,
  )
]

get_group-later :
    (q : ℕ) (h : Group) (m es : Groups)
    → All (λ e. e.0 ≢ q) es
    → All (λ e. get_group m e.0 ≡ some e.1) es
    → All (λ e. get_group ((q, h) ∷ m) e.0 ≡ some e.1) es
unfolding get_group
get_group-later q h m [] k ks = tt
get_group-later q h m ((p, g) ∷ es) (k, ks) (l, ls) = (ground arith, get_group-later q h m es ks ls)

-- Each entry is found by its prefix.
pub get_group_self : (m : Groups) → Distinct m → All (λ e. get_group m e.0 ≡ some e.1) m
get_group_self [] h = tt
get_group_self ((p, g) ∷ m) (k, ks) =
    (unfold get_group in rw (==_refl p), get_group-later p g m m k (get_group_self m ks))

-- Where a prefix is found, it is the prefix of an entry.
pub has_prefix : Groups → ℕ → Bool
has_prefix m p = is_some (get_group m p)
