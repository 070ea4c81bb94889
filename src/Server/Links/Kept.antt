-- ===== src/Server/Links/Kept.antt =====
-- internal/server/ui.go: what the request of a link to a page asks for.
use trino_log_sink.Base.{
  Bool-cases, Bytes, [], ap, arith, atoi, atoi-decimal, bytes_eq, bytes_eq_refl, bytes_eq→eq, codes,
  decimal, false, inl, inr, is_empty, ltb, refl, ℕ, ◌∙◌, ◌∷◌, ◌≡◌, ◌≤◌,
}
use trino_log_sink.Server.Filter.{page_number, ui_page}
use trino_log_sink.Server.Links.{
  Choices, Pairs, base_values, get_pair, page_values, set_given, set_pair, set_sort,
}

get-set_pair : (key v : Bytes) (q : Pairs) → get_pair (set_pair key v q) key ≡ v
unfolding get_pair set_pair
get-set_pair key v [] = rw (bytes_eq_refl key) refl
get-set_pair key v ((k, w) ∷ q) = ground (arith, get-set_pair key v q)

get-set_pair_other :
    (key v j : Bytes) (q : Pairs)
    → bytes_eq key j ≡ false
    → get_pair (set_pair key v q) j ≡ get_pair q j
unfolding get_pair set_pair
get-set_pair_other key v j [] h = rw h refl
get-set_pair_other key v j ((k, w) ∷ q) h =
    ground (arith, get-set_pair_other key v j q h, bytes_eq→eq k key)

get-set_given :
    (key v : Bytes) (q : Pairs) → get_pair q key ≡ [] → get_pair (set_given key v q) key ≡ v
unfolding set_given is_empty
get-set_given key [] q h = h
get-set_given key (c ∷ v) q h = get-set_pair key (c ∷ v) q

get-set_given_other :
    (key v j : Bytes) (q : Pairs)
    → bytes_eq key j ≡ false
    → get_pair (set_given key v q) j ≡ get_pair q j
unfolding set_given is_empty
get-set_given_other key [] j q h = refl
get-set_given_other key (c ∷ v) j q h = get-set_pair_other key (c ∷ v) j q h

-- The parameters that keep what the view shows.
pub record Keeps (v : Choices) (q : Pairs) : Type 0 where
  pub range_kept : get_pair q (codes "range") ≡ v.range
  pub user_kept : get_pair q (codes "user") ≡ v.user
  pub catalog_kept : get_pair q (codes "catalog") ≡ v.catalog
  pub state_kept : get_pair q (codes "state") ≡ v.state
  pub sort_kept : get_pair q (codes "sort") ≡ v.sort
  pub dir_kept : get_pair q (codes "dir") ≡ v.dir

-- `pageValues` without its page.
sorted_values : Choices → Pairs
unfolding base_values set_sort
sorted_values v = set_sort v.sort v.dir (base_values v)

module _ (v : Choices) where
  q0 : Pairs
  q0 = (codes "range", v.range) ∷ []

  q1 : Pairs
  q1 = set_given (codes "user") v.user q0

  q2 : Pairs
  q2 = set_given (codes "catalog") v.catalog q1

  q3 : Pairs
  q3 = set_given (codes "state") v.state q2

  q4 : Pairs
  q4 = set_pair (codes "sort") v.sort q3

  sorted_values-Keeps : Keeps v (sorted_values v)
  unfolding sorted_values base_values set_sort bytes_eq get_pair q0 q1 q2 q3 q4
  sorted_values-Keeps = record {
    range_kept =
        behind_sort (codes "range") refl refl
        ∙ get-set_given_other (codes "state") v.state (codes "range") q2 refl
        ∙ get-set_given_other (codes "catalog") v.catalog (codes "range") q1 refl
        ∙ get-set_given_other (codes "user") v.user (codes "range") q0 refl;
    user_kept =
        behind_sort (codes "user") refl refl
        ∙ get-set_given_other (codes "state") v.state (codes "user") q2 refl
        ∙ get-set_given_other (codes "catalog") v.catalog (codes "user") q1 refl
        ∙ get-set_given (codes "user") v.user q0 refl;
    catalog_kept =
        behind_sort (codes "catalog") refl refl
        ∙ get-set_given_other (codes "state") v.state (codes "catalog") q2 refl
        ∙ get-set_given (codes "catalog") v.catalog q1
            (get-set_given_other (codes "user") v.user (codes "catalog") q0 refl);
    state_kept =
        behind_sort (codes "state") refl refl
        ∙ get-set_given (codes "state") v.state q2 (
            get-set_given_other (codes "catalog") v.catalog (codes "state") q1 refl
            ∙ get-set_given_other (codes "user") v.user (codes "state") q0 refl);
    sort_kept =
        get-set_pair_other (codes "dir") v.dir (codes "sort") q4 refl
        ∙ get-set_pair (codes "sort") v.sort q3;
    dir_kept = get-set_pair (codes "dir") v.dir q4;
  }
    where
      behind_sort :
          (j : Bytes)
          → bytes_eq (codes "dir") j ≡ false
          → bytes_eq (codes "sort") j ≡ false
          → get_pair (sorted_values v) j ≡ get_pair q3 j
      behind_sort j h k =
          get-set_pair_other (codes "dir") v.dir j q4 h
          ∙ get-set_pair_other (codes "sort") v.sort j q3 k

  page_set-Keeps : (page : Bytes) → Keeps v (set_pair (codes "page") page (sorted_values v))
  unfolding bytes_eq
  page_set-Keeps page =
      let k = sorted_values-Keeps in
      record {
        range_kept =
            get-set_pair_other (codes "page") page (codes "range") (sorted_values v) refl
            ∙ k.range_kept;
        user_kept =
            get-set_pair_other (codes "page") page (codes "user") (sorted_values v) refl
            ∙ k.user_kept;
        catalog_kept =
            get-set_pair_other (codes "page") page (codes "catalog") (sorted_values v) refl
            ∙ k.catalog_kept;
        state_kept =
            get-set_pair_other (codes "page") page (codes "state") (sorted_values v) refl
            ∙ k.state_kept;
        sort_kept =
            get-set_pair_other (codes "page") page (codes "sort") (sorted_values v) refl
            ∙ k.sort_kept;
        dir_kept =
            get-set_pair_other (codes "page") page (codes "dir") (sorted_values v) refl
            ∙ k.dir_kept;
      }

  no_page : get_pair (sorted_values v) (codes "page") ≡ []
  unfolding sorted_values base_values set_sort bytes_eq get_pair q0 q1 q2 q3 q4
  no_page =
      get-set_pair_other (codes "dir") v.dir (codes "page") q4 refl
      ∙ get-set_pair_other (codes "sort") v.sort (codes "page") q3 refl
      ∙ get-set_given_other (codes "state") v.state (codes "page") q2 refl
      ∙ get-set_given_other (codes "catalog") v.catalog (codes "page") q1 refl
      ∙ get-set_given_other (codes "user") v.user (codes "page") q0 refl

  -- The link to a page from 1 to 50 asks for that page, with the range, the filters, the column and the
  -- direction that the dashboard shows.
  pub page_values-Keeps :
      (p : ℕ)
      → 1 ≤ p
      → p ≤ 50
      → (ui_page (get_pair (page_values v p)) ≡ p) × Keeps v (page_values v p)
  unfolding page_values ui_page page_number sorted_values get_pair
  page_values-Keeps p lo hi = elim (Bool-cases (ltb 1 p)) [
    | inl h ↦ rw h (
      ap (λ s. page_number (atoi s)) (get-set_pair (codes "page") (decimal p) (sorted_values v))
          ∙ ap page_number (atoi-decimal p (omega arith))
          ∙ ground arith,
      page_set-Keeps (decimal p),
    )
    | inr h ↦ rw h (ap (λ s. page_number (atoi s)) no_page ∙ ground arith, sorted_values-Keeps)
  ]
