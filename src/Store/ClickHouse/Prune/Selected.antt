-- ===== src/Store/ClickHouse/Prune/Selected.antt =====
-- Lists of texts that pass a test, and of those that are left when texts are removed.
use trino_log_sink.Base.{
  All, All-imp, Bool, Bool-cases, Bytes, List, [], arith, bytes_eq, bytes_eq_refl, bytes_eq→eq,
  false, if◌then◌else◌, inl, inr, not, refl, true, ◌||◌, ◌∷◌, ◌≡◌,
}

-- The texts that pass a test.
unfoldable pub select : (Bytes → Bool) → List Bytes → List Bytes
select test [] = []
select test (p ∷ ps) = if test p then p ∷ select test ps else select test ps

unfoldable pub remove : Bytes → List Bytes → List Bytes
unfolding select
remove id ps = select (λ p. not (bytes_eq p id)) ps

unfoldable pub remove_all : List Bytes → List Bytes → List Bytes
remove_all [] ps = ps
remove_all (id ∷ ids) ps = remove_all ids (remove id ps)

unfoldable pub is_in : Bytes → List Bytes → Bool
is_in p [] = false
is_in p (id ∷ ids) = bytes_eq p id || is_in p ids

pub select-remove :
    (test : Bytes → Bool) (id : Bytes) (ps : List Bytes)
    → test id ≡ false
    → select test (remove id ps) ≡ select test ps
unfolding remove select
select-remove test id [] h = refl
select-remove test id (p ∷ ps) h = ground (arith, select-remove test id ps h, bytes_eq→eq p id)

All-remove :
    (P : Bytes → Type 0) (id : Bytes) (ps : List Bytes)
    → All P ps
    → All (λ p. P p × (bytes_eq p id ≡ false)) (remove id ps)
unfolding remove select
All-remove P id [] h = tt
All-remove P id (p ∷ ps) (h, hs) = elim (Bool-cases (bytes_eq p id)) [
  | inl e ↦ rw e (All-remove P id ps hs)
  | inr e ↦ rw e ((h, e), All-remove P id ps hs)
]

pub All-remove_all :
    (test : Bytes → Bool) (ids ps : List Bytes)
    → All (λ p. test p ≡ true → is_in p ids ≡ true) ps
    → All (λ p. test p ≡ false) (remove_all ids ps)
unfolding remove_all is_in
All-remove_all test [] ps h = All-imp (λ p k. ground arith) ps h
All-remove_all test (id ∷ ids) ps h =
    All-remove_all test ids (remove id ps)
      (All-imp (λ p (k, e) l. ground arith) (remove id ps) (All-remove _ id ps h))

pub select-is_in :
    (test : Bytes → Bool) (ps : List Bytes)
    → All (λ p. test p ≡ true → is_in p (select test ps) ≡ true) ps
unfolding select is_in
select-is_in test [] = tt
select-is_in test (p ∷ ps) = (
  λ h. ground (arith, bytes_eq_refl p),
  All-imp (λ q k h. ground arith) ps (select-is_in test ps),
)

pub select_passing :
    (test : Bytes → Bool) (ps : List Bytes) → All (λ p. test p ≡ true) ps → select test ps ≡ ps
unfolding select
select_passing test [] h = refl
select_passing test (p ∷ ps) (h, hs) = rw (h, select_passing test ps hs)

pub select-All : (test : Bytes → Bool) (ps : List Bytes) → All (λ p. test p ≡ true) (select test ps)
unfolding select
select-All test [] = tt
select-All test (p ∷ ps) = ground (arith, select-All test ps)

-- A text that passes a test is selected if it is there.
pub is_in-select_passing :
    (test : Bytes → Bool) (p : Bytes) (ps : List Bytes)
    → test p ≡ true
    → is_in p (select test ps) ≡ is_in p ps
unfolding select is_in
is_in-select_passing test p [] h = refl
is_in-select_passing test p (q ∷ ps) h =
    ground (arith, is_in-select_passing test p ps h, bytes_eq→eq p q)

pub is_in-select_failing :
    (test : Bytes → Bool) (p : Bytes) (ps : List Bytes)
    → test p ≡ false
    → is_in p (select test ps) ≡ false
unfolding select is_in
is_in-select_failing test p [] h = refl
is_in-select_failing test p (q ∷ ps) h =
    ground (arith, is_in-select_failing test p ps h, bytes_eq→eq p q)
