-- ===== src/Store/Cursor/Complete.antt =====
-- internal/store/trino.go and clickhouse.go: a listing is complete or an error.
use trino_log_sink.Base.{
  All, List, Option, Option-cases, [], ap, append-nil, append_assoc, codes, inl, inr, map, none,
  refl, sym, ◌++◌, ◌↔◌, ◌∙◌, ◌∷◌, ◌≡◌, ◌⊎◌,
}
use trino_log_sink.Store.Errors.{Error}
use trino_log_sink.Store.Cursor.{
  Pair, Result, Rows, failed, list_rows, no_check, ok, scan_error, scan_loop,
}

pub Result-cases {ℓ} :
    {A : Type ℓ} (r : Result A) → ((a : A) × (r ≡ ok a)) ⊎ ((e : Error) × (r ≡ failed e))
Result-cases (ok a) = inl (a, refl)
Result-cases (failed e) = inr (e, refl)

module _ {A : Type 0} where
  -- A loop over rows that ends without an error has read values only, has passed them all and has them all.
  pub scan_loop-none :
      (check : A → Option Error) (scans : List (Result A)) (last : Option Error) (out : List A)
      → (scan_loop check scans last out).1 ≡ none
      → (bs : List A) × (scans ≡ map ok bs)
        × (last ≡ none)
        × All (λ b. check b ≡ none) bs
        × ((scan_loop check scans last out).0 ≡ out ++ bs)
  unfolding scan_loop
  scan_loop-none check [] last out k = ([], refl, k, tt, sym (append-nil out))
  scan_loop-none check (failed e ∷ scans) last out k = cc
  scan_loop-none check (ok a ∷ scans) last out k = elim (Option-cases (check a)) [
    | inl h ↦
        let (bs, i, l, p, j) =
          scan_loop-none check scans last (out ++ a ∷ []) (rw (h, scan_loop) at k) in
        (a ∷ bs, ap (◌∷◌ (ok a)) i, l, (h, p), rw (h, scan_loop) (j ∙ append_assoc out (a ∷ []) bs))
    | inr (e, h) ↦ cc
  ]

  -- The loop of `list_rows` from the values that it has.
  looped : List (Result A) → Option Error → List A → Pair A
  unfolding scan_loop scan_error no_check
  looped scans last out =
      scan_loop no_check (map (scan_error (codes "scan summary: ")) scans) last out

  looped-ok :
      (as' : List A) (last : Option Error) (out : List A)
      → looped (map ok as') last out ≡ (out ++ as', last)
  unfolding looped scan_loop scan_error no_check
  looped-ok [] last out = simp append-nil
  looped-ok (a ∷ as') last out = looped-ok as' last (out ++ a ∷ []) ∙ simp append_assoc

  looped-none :
      (scans : List (Result A)) (last : Option Error) (out : List A)
      → (looped scans last out).1 ≡ none
      → (bs : List A) × (scans ≡ map ok bs) × (last ≡ none)
  unfolding looped scan_loop scan_error no_check
  looped-none [] last out k = ([], refl, k)
  looped-none (failed e ∷ scans) last out k = cc
  looped-none (ok a ∷ scans) last out k =
      let (bs, h, h') = looped-none scans last (out ++ a ∷ []) k in (a ∷ bs, ap (◌∷◌ (ok a)) h, h')

  -- A listing ends without an error and with the given values exactly if the driver scanned these values,
  -- in their order and none else, and ended without an error.
  pub list_rows_complete :
      (rows : Rows A) (as' : List A)
      → (list_rows rows ≡ (as', none)) ↔ ((rows.scans ≡ map ok as') × (rows.rows_err ≡ none))
  unfolding list_rows looped
  list_rows_complete rows as' = (
    λ h.
        let (bs, k, l) = looped-none rows.scans rows.rows_err [] (ap (λ p. p.1) h) in
        let e : bs ≡ as' =
          sym (
            ap (λ p. p.0)
              (ap (λ scans. looped scans rows.rows_err []) k ∙ looped-ok bs rows.rows_err []))
          ∙ ap (λ p. p.0) h in
        (k ∙ ap (map ok) e, l),
    λ (h, k).
        ap (λ scans. looped scans rows.rows_err []) h
        ∙ looped-ok as' rows.rows_err []
        ∙ ap (λ e. (as', e)) k,
  )
