-- ===== src/Client/Plan/Ranked.antt =====
-- internal/querycli/plan.go: the hotspots that are shown are the greatest of those in the plan.
use mathlib.Core.Path.{subst}
use mathlib.Core.List.Perm
use mathlib.Core.List.{Perm, perm_middle}
use trino_log_sink.Base.{
  All, All-imp, All-of-append, Bool, Bool-cases, Bytes, List, [], append-nil, arith, drop, false,
  if_intro, if◌then◌else◌, inl, inr, length, ltb, min, negsuc, pos, refl, suc, sym, take,
  take-append-drop, true, ℕ, ℤ, ◌&&◌, ◌++◌, ◌+◌, ◌==◌, ◌∙◌, ◌∷◌, ◌≡◌, length-take,
}
use trino_log_sink.Client.Plan.{
  Hotspot, Matches, hotspots_loop, insert, parse_hotspots, sort_stable, split_lines, top_hotspots,
}

-- The order of floats that are numbers.
pub record IsOrder {F : Type 0} (gt : F → F → Bool) : Type 0 where
  pub gt_asymm : (x y : F) → gt x y ≡ true → gt y x ≡ false
  pub not-gt_trans : (x y z : F) → gt y x ≡ false → gt z y ≡ false → gt z x ≡ false

module _ {F : Type 0} (m : Matches F) where
  -- No hotspot of the list has a greater percentage.
  abbrev pub NoneAbove : List (Hotspot F) → Hotspot F → Type 0
  NoneAbove hs x = All (λ y. m.gt y.cpu_pct x.cpu_pct ≡ false) hs

  abbrev pub IsSorted : List (Hotspot F) → Type 0
  IsSorted [] = Unit
  IsSorted (x ∷ xs) = NoneAbove xs x × IsSorted xs

  module _ (order : IsOrder m.gt) where
    below :
        (x y : Hotspot F) (xs : List (Hotspot F))
        → m.gt y.cpu_pct x.cpu_pct ≡ false
        → NoneAbove xs y
        → NoneAbove xs x
    below x y xs h = All-imp (λ z k. order.not-gt_trans x.cpu_pct y.cpu_pct z.cpu_pct h k) xs

    insert-NoneAbove :
        (h x : Hotspot F) (xs : List (Hotspot F))
        → m.gt h.cpu_pct x.cpu_pct ≡ false
        → NoneAbove xs x
        → NoneAbove (insert m h xs) x
    unfolding insert
    insert-NoneAbove h x [] k a = (k, tt)
    insert-NoneAbove h x (y ∷ ys) k (a, b) =
        if_intro (λ l. NoneAbove l x) (m.gt h.cpu_pct y.cpu_pct) (k, (a, b))
          (a, insert-NoneAbove h x ys k b)

    insert-IsSorted :
        (h : Hotspot F) (xs : List (Hotspot F)) → IsSorted xs → IsSorted (insert m h xs)
    unfolding insert
    insert-IsSorted h [] s = (tt, tt)
    insert-IsSorted h (y ∷ ys) (a, s) = elim (Bool-cases (m.gt h.cpu_pct y.cpu_pct)) [
      | inl e ↦ let k = order.gt_asymm h.cpu_pct y.cpu_pct e in rw e ((k, below h y ys k a), (a, s))
      | inr e ↦ rw e (insert-NoneAbove h y ys e a, insert-IsSorted h ys s)
    ]

    sort_stable-IsSorted :
        (hs out : List (Hotspot F)) → IsSorted out → IsSorted (sort_stable m hs out)
    unfolding sort_stable
    sort_stable-IsSorted [] out s = s
    sort_stable-IsSorted (h ∷ hs) out s =
        sort_stable-IsSorted hs (insert m h out) (insert-IsSorted h out s)

  insert-perm : (h : Hotspot F) (xs : List (Hotspot F)) → Perm (insert m h xs) (h ∷ xs)
  unfolding insert
  insert-perm h [] = Perm.refl (h ∷ [])
  insert-perm h (y ∷ ys) =
      if_intro (λ l. Perm l (h ∷ y ∷ ys)) (m.gt h.cpu_pct y.cpu_pct) (Perm.refl (h ∷ y ∷ ys))
        (Perm.trans (Perm.cons y (insert-perm h ys)) (Perm.swap h y ys))

  sort_stable-perm : (hs out : List (Hotspot F)) → Perm (sort_stable m hs out) (hs ++ out)
  unfolding sort_stable
  sort_stable-perm [] out = Perm.refl out
  sort_stable-perm (h ∷ hs) out =
      Perm.trans (sort_stable-perm hs (insert m h out))
        (Perm.trans (Perm.append_left hs (insert-perm h out)) (perm_middle hs out))

  length-insert : (h : Hotspot F) (xs : List (Hotspot F)) → length (insert m h xs) ≡ suc (length xs)
  unfolding insert
  length-insert h [] = refl
  length-insert h (y ∷ ys) = ground (arith, length-insert h ys)

  length-sort_stable :
      (hs out : List (Hotspot F)) → length (sort_stable m hs out) ≡ length hs + length out
  unfolding sort_stable
  length-sort_stable [] out = omega arith
  length-sort_stable (h ∷ hs) out =
      let a = length-sort_stable hs (insert m h out) in let b = length-insert h out in omega arith

  IsSorted-append :
      (xs ys : List (Hotspot F)) → IsSorted (xs ++ ys) → IsSorted xs × All (NoneAbove ys) xs
  IsSorted-append [] ys s = (tt, tt)
  IsSorted-append (x ∷ xs) ys (a, s) =
      let (p, q) = All-of-append (λ y. m.gt y.cpu_pct x.cpu_pct ≡ false) xs ys a in
      let (r, t) = IsSorted-append xs ys s in ((p, r), (q, t))

  -- The hotspots that are shown, and those that are not.
  abbrev pub Greatest : Bytes → List (Hotspot F) → Type 0
  Greatest plan shown =
      (rest : List (Hotspot F)) × Perm (shown ++ rest) (hotspots_loop m [] (split_lines plan []))
      × IsSorted shown
      × All (NoneAbove rest) shown

  split_Greatest :
      (plan : Bytes) (shown rest : List (Hotspot F))
      → IsOrder m.gt
      → shown ++ rest ≡ parse_hotspots m plan
      → Greatest plan shown
  unfolding parse_hotspots
  split_Greatest plan shown rest order e =
      let sorted : IsSorted (parse_hotspots m plan) =
        sort_stable-IsSorted order (hotspots_loop m [] (split_lines plan [])) [] tt in
      let same : Perm (parse_hotspots m plan) (hotspots_loop m [] (split_lines plan [])) =
        subst (Perm (parse_hotspots m plan)) (append-nil _)
          (sort_stable-perm (hotspots_loop m [] (split_lines plan [])) []) in
      let (s, a) = IsSorted-append shown rest (subst IsSorted (sym e) sorted) in
      (rest, subst (λ l. Perm l (hotspots_loop m [] (split_lines plan []))) (sym e) same, s, a)

  -- How many of the hotspots `--top` shows.
  abbrev pub shown_count : ℤ → ℕ → ℕ
  shown_count (pos n) k = if n == 0 then k else min n k
  shown_count (negsuc n) k = k

  length-parse_hotspots :
      (plan : Bytes)
      → length (parse_hotspots m plan) ≡ length (hotspots_loop m [] (split_lines plan []))
  unfolding parse_hotspots
  length-parse_hotspots plan =
      length-sort_stable (hotspots_loop m [] (split_lines plan [])) [] ∙ omega arith

  -- With the order of numbers on the percentages, `query plan` shows hotspots of the plan with the greatest percentage
  -- first, and leaves none out that is above one of them; it shows as many as `--top` says, or all when the plan has
  -- no more or `--top` is not positive.
  pub top_hotspots-Greatest :
      IsOrder m.gt
      → (n : ℤ) (plan : Bytes)
      → Greatest plan (top_hotspots m n (parse_hotspots m plan))
        × (length (top_hotspots m n (parse_hotspots m plan))
            ≡ shown_count n (length (hotspots_loop m [] (split_lines plan []))))
  unfolding top_hotspots
  top_hotspots-Greatest order (negsuc n) plan =
      (split_Greatest plan _ [] order (append-nil _), length-parse_hotspots plan)
  top_hotspots-Greatest order (pos n) plan =
      let hs = parse_hotspots m plan in
      let same = length-parse_hotspots plan in
      elim (Bool-cases (ltb 0 n && ltb n (length hs))) [
        | inl e ↦ rw e (
          split_Greatest plan (take n hs) (drop n hs) order (take-append-drop n hs),
          (let l = length-take n hs in ground arith),
        )
        | inr e ↦ rw e (split_Greatest plan hs [] order (append-nil hs), ground arith)
      ]
