-- ===== src/Ai/Panels/Newest.antt =====
-- The newest dashboard of internal/ai/verify.go is the first with the highest identifier.
use mathlib.Core.Path.{subst}
use vikasa_demo.Base.{
  true, false, List, [], ◌∷◌, ◌++◌, some, ℤ, pos, negsuc, ◌≡◌, refl, ap, arith, All, All-append,
  All-imp, append_assoc, append-nil, Bool-cases, inl, inr,
}
use vikasa_demo.Ai.Grafana.{DashSearchResult}
use vikasa_demo.Ai.Panels.{exceeds, newest_of, newest_dashboard}

exceeds_trans : (a b c : ℤ) → exceeds a b ≡ true → exceeds b c ≡ true → exceeds a c ≡ true
exceeds_trans (pos a) (pos b) (pos c) h k = ground (arith, h, k)
exceeds_trans (pos a) b (negsuc c) h k = refl
exceeds_trans (pos a) (negsuc b) (pos c) h k = absurd (cc)
exceeds_trans (negsuc a) (pos b) c h k = absurd (cc)
exceeds_trans (negsuc a) (negsuc b) (pos c) h k = absurd (cc)
exceeds_trans (negsuc a) (negsuc b) (negsuc c) h k = ground (arith, h, k)

exceeds_both : (a b c : ℤ) → exceeds a b ≡ true → exceeds c b ≡ false → exceeds a c ≡ true
exceeds_both (pos a) (pos b) (pos c) h k = ground (arith, h, k)
exceeds_both (pos a) b (negsuc c) h k = refl
exceeds_both (pos a) (negsuc b) (pos c) h k = absurd (cc)
exceeds_both (negsuc a) (pos b) c h k = absurd (cc)
exceeds_both (negsuc a) (negsuc b) (pos c) h k = absurd (cc)
exceeds_both (negsuc a) (negsuc b) (negsuc c) h k = ground (arith, h, k)

-- A dashboard of a list that exceeds those before it and is not exceeded by those after it.
pub record IsNewest (d : DashSearchResult) (ds : List DashSearchResult) : Type 0 where
  pub before : List DashSearchResult
  pub after : List DashSearchResult
  pub place : ds ≡ before ++ d ∷ after
  pub older : All (λ (r : DashSearchResult). exceeds d.id r.id ≡ true) before
  pub no_newer : All (λ (r : DashSearchResult). exceeds r.id d.id ≡ false) after

newest_of-IsNewest :
    (rs before mid : List DashSearchResult) (d : DashSearchResult)
    → All (λ (r : DashSearchResult). exceeds d.id r.id ≡ true) before
    → All (λ (r : DashSearchResult). exceeds r.id d.id ≡ false) mid
    → IsNewest (newest_of d rs) (before ++ d ∷ (mid ++ rs))
unfolding newest_of
newest_of-IsNewest [] before mid d h k = record {
  before = before;
  after = mid;
  place = ap (λ x. before ++ d ∷ x) (append-nil mid);
  older = h;
  no_newer = k;
}
newest_of-IsNewest (r ∷ rs) before mid d h k = elim (Bool-cases (exceeds r.id d.id)) [
  | inl e ↦
      let older =
        All-append _ before (d ∷ mid)
          (All-imp _ (λ (x : DashSearchResult). exceeds r.id x.id ≡ true)
            (λ x p. exceeds_trans r.id d.id x.id e p) before h)
          (
            e,
            All-imp _ (λ (x : DashSearchResult). exceeds r.id x.id ≡ true)
                (λ x p. exceeds_both r.id d.id x.id e p) mid k,
          ) in
      rw (e, newest_of)
        (subst (IsNewest (newest_of r rs)) (append_assoc before (d ∷ mid) (r ∷ rs))
          (newest_of-IsNewest rs (before ++ d ∷ mid) [] r older tt))
  | inr e ↦
      rw (e, newest_of)
        (subst (λ x. IsNewest (newest_of d rs) (before ++ d ∷ x)) (append_assoc mid (r ∷ []) rs)
          (newest_of-IsNewest rs before (mid ++ r ∷ []) d h (All-append _ mid (r ∷ []) k (e, tt))))
]

pub newest_dashboard-IsNewest :
    (ds : List DashSearchResult) (n : DashSearchResult)
    → newest_dashboard ds ≡ some n
    → IsNewest n ds
unfolding newest_dashboard
newest_dashboard-IsNewest [] n h = absurd (cc)
newest_dashboard-IsNewest (d ∷ ds) n h =
    let same : newest_of d ds ≡ n = cc in
    subst (λ x. IsNewest x (d ∷ ds)) same (newest_of-IsNewest ds [] [] d tt tt)
