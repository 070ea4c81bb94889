-- ===== src/Store/Trino/Largest.antt =====
-- The choice of the largest text, and the exponents that bound the texts of a row.
use mathlib.Core.Path.{subst}
use native.Mathlib.Nat.{pow-suc}
use trino_log_sink.Base.{
  All, All-append, Bool-cases, Bytes, List, [], ap, append-nil, append_assoc, arith, count_byte,
  inl, inr, length, length-append, ltb, refl, set, some, suc, zero, ℕ, ◌++◌, ◌+◌, ◌-◌, ◌/◌, ◌<◌,
  ◌^◌, ◌∷◌, ◌≡◌, ◌≤◌,
}
use trino_log_sink.Store.Row.{Row}
use trino_log_sink.Store.Trino.Cost.{cost, costs}
use trino_log_sink.Store.Row.{Row}
use trino_log_sink.Store.Truncate.{string_fields}
use trino_log_sink.Store.Trino.Clamp.{
  head_or_empty, largest, largest_from, tail, with_string_fields,
}

-- The text stands in that place of the list.
abbrev pub At : ℕ → Bytes → List Bytes → Type 0
At i f [] = ⊥
At zero f (g ∷ fs) = g ≡ f
At (suc i) f (g ∷ fs) = At i f fs

-- Each text is shorter than two to the power of its exponent.
abbrev pub Bounded : List Bytes → List ℕ → Type 0
Bounded [] [] = Unit
Bounded [] (k ∷ ks) = ⊥
Bounded (f ∷ fs) [] = ⊥
Bounded (f ∷ fs) (k ∷ ks) = (length f < 2 ^ k) × Bounded fs ks

unfoldable pub sum : List ℕ → ℕ
sum [] = 0
sum (k ∷ ks) = k + sum ks

-- Lower the exponent in a place by one.
unfoldable pub lower : ℕ → List ℕ → List ℕ
lower i [] = []
lower zero (k ∷ ks) = (k - 1) ∷ ks
lower (suc i) (k ∷ ks) = k ∷ lower i ks

pub costs-set :
    (fs : List Bytes) (i : ℕ) (f g : Bytes)
    → At i f fs
    → costs (set fs i g) + cost f ≡ costs fs + cost g
unfolding costs
costs-set [] i f g h = absurd h
costs-set (x ∷ fs) zero f g h = omega (arith, ap cost h)
costs-set (x ∷ fs) (suc i) f g h = omega (arith, costs-set fs i f g h)

pub length-set : (fs : List Bytes) (i : ℕ) (g : Bytes) → length (set fs i g) ≡ length fs
length-set [] i g = refl
length-set (x ∷ fs) zero g = refl
length-set (x ∷ fs) (suc i) g = ap suc (length-set fs i g)

-- Half of a number below `2 ^ k` is below `2 ^ (k - 1)`, if the number is not 0.
half_below : (n m k : ℕ) → n < 2 ^ k → 0 < n → m ≤ n / 2 → m < 2 ^ (k - 1)
half_below n m zero h p q = absurd (omega arith)
half_below n m (suc k) h p q =
    let e : suc k - 1 ≡ k = omega arith in rw e (omega (arith, pow-suc 2 k))

exponent_pos : (n k : ℕ) → n < 2 ^ k → 0 < n → 0 < k
exponent_pos n zero h p = absurd (omega arith)
exponent_pos n (suc k) h p = omega arith

pub lower-Bounded :
    (fs : List Bytes) (ks : List ℕ) (i : ℕ) (f g : Bytes)
    → Bounded fs ks
    → At i f fs
    → 0 < length f
    → length g ≤ length f / 2
    → Bounded (set fs i g) (lower i ks) × (suc (sum (lower i ks)) ≡ sum ks)
unfolding lower sum
lower-Bounded [] ks i f g b h p q = absurd h
lower-Bounded (x ∷ fs) [] i f g b h p q = absurd b
lower-Bounded (x ∷ fs) (k ∷ ks) zero f g (b, bs) h p q =
    let lx : length f < 2 ^ k = omega (arith, ap length h) in
    ((half_below (length f) (length g) k lx p q, bs), omega (arith, exponent_pos (length f) k lx p))
lower-Bounded (x ∷ fs) (k ∷ ks) (suc i) f g (b, bs) h p q =
    let (c, e) = lower-Bounded fs ks i f g bs h p q in ((b, c), omega arith)

-- The text is in its place, and no text is longer.
abbrev pub IsLargest : List Bytes → ℕ × Bytes → Type 0
IsLargest fs (i, f) = At i f fs × All (λ g. length g ≤ length f) fs

At-after : (ds : List Bytes) (f : Bytes) (fs : List Bytes) → At (length ds) f (ds ++ f ∷ fs)
At-after [] f fs = refl
At-after (d ∷ ds) f fs = At-after ds f fs

All-mono :
    (fs : List Bytes) (m n : ℕ) → m ≤ n → All (λ g. length g ≤ m) fs → All (λ g. length g ≤ n) fs
All-mono [] m n h k = tt
All-mono (f ∷ fs) m n h (k, ks) = (omega arith, All-mono fs m n h ks)

-- `seen` are the texts that the loop has passed.
largest_from-IsLargest :
    (fs seen : List Bytes) (i best : ℕ) (found : Bytes)
    → i ≡ length seen
    → At best found (seen ++ fs)
    → All (λ g. length g ≤ length found) seen
    → IsLargest (seen ++ fs) (largest_from fs i best found)
unfolding largest_from
largest_from-IsLargest [] seen i best found e h k = (h, rw append-nil k)
largest_from-IsLargest (f ∷ fs) seen i best found e h k =
    rw (← append_assoc seen (f ∷ []) fs) (elim (Bool-cases (ltb (length found) (length f))) [
      | inl t ↦ rw t (
          largest_from-IsLargest fs (seen ++ f ∷ []) (i + 1) i f
            (omega (arith, length-append seen (f ∷ []))) (rw (append_assoc, e) (At-after seen f fs))
            (All-append (λ g. length g ≤ length f) seen (f ∷ [])
              (All-mono seen (length found) (length f) (ground arith) k) (omega arith, tt)))
      | inr t ↦ rw t (
          largest_from-IsLargest fs (seen ++ f ∷ []) (i + 1) best found
            (omega (arith, length-append seen (f ∷ []))) (rw append_assoc h)
            (All-append (λ g. length g ≤ length found) seen (f ∷ []) k (ground arith, tt)))
    ])

pub largest-IsLargest : (fs : List Bytes) (b : ℕ × Bytes) → largest fs ≡ some b → IsLargest fs b
unfolding largest
largest-IsLargest [] b h = cc
largest-IsLargest (f ∷ fs) b h =
    let e : largest_from fs 1 0 f ≡ b = cc in
    subst (IsLargest (f ∷ fs)) e
      (largest_from-IsLargest fs (f ∷ []) 1 0 f refl refl (omega arith, tt))

rebuild : ℕ → List Bytes → List Bytes
rebuild zero fs = []
rebuild (suc n) fs = head_or_empty fs ∷ rebuild n (tail fs)

rebuild-length : (n : ℕ) (fs : List Bytes) → length fs ≡ n → rebuild n fs ≡ fs
unfolding rebuild head_or_empty tail
rebuild-length zero [] h = refl
rebuild-length zero (f ∷ fs) h = absurd (omega arith)
rebuild-length (suc n) [] h = absurd (omega arith)
rebuild-length (suc n) (f ∷ fs) h = ap (◌∷◌ f) (rebuild-length n fs (omega arith))

pub string_fields-with_string_fields :
    (r : Row) (fs : List Bytes) → length fs ≡ 21 → string_fields (with_string_fields r fs) ≡ fs
unfolding string_fields with_string_fields rebuild
string_fields-with_string_fields r fs h = rebuild-length 21 fs h

pub costs_empty : (fs : List Bytes) → All (λ g. length g ≤ 0) fs → costs fs ≡ 0
unfolding costs cost count_byte
costs_empty [] h = refl
costs_empty ([] ∷ fs) (h, hs) = omega (arith, costs_empty fs hs)
costs_empty ((b ∷ g) ∷ fs) (h, hs) = absurd (omega arith)

pub Bounded-zero :
    (fs : List Bytes) (ks : List ℕ) → Bounded fs ks → sum ks ≤ 0 → All (λ g. length g ≤ 0) fs
unfolding sum
Bounded-zero [] ks b h = tt
Bounded-zero (f ∷ fs) [] b h = absurd b
Bounded-zero (f ∷ fs) (zero ∷ ks) (b, bs) h = (omega arith, Bounded-zero fs ks bs (omega arith))
Bounded-zero (f ∷ fs) (suc k ∷ ks) (b, bs) h = absurd (omega arith)
