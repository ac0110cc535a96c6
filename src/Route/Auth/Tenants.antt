-- ===== src/Route/Auth/Tenants.antt =====
-- `ExtractEvalTenant`: a subject stands for a tenant exactly if it is the tenant's name, a dash and
-- a last part without a dash.
use pulsar_beam.Prelude.{
  ◌-◌, String, true, false, ◌&&◌, not, ◌≡◌, ◌≢◌, ◌↔◌, inl, inr, refl, sym, List, [], ◌∷◌, ◌++◌,
  length, take, arith, eq_iff, ◌==◌, ap, length-append, ◌∙◌,
}
use pulsar_beam.Strings.{◌<>◌, split}
use pulsar_beam.Strings.Splitting.{
  Lacks, split_lacking, split-append_last, last_separator, join-split,
}
use pulsar_beam.Route.Auth.{extract_eval_tenant}

-- The subject `v` belongs to the tenant: `tenant-suffix`, where the suffix has no dash.
abbrev pub IsSubjectOf : String → String → Type 0
IsSubjectOf tenant v = (suffix : String) × Lacks "-" suffix × (v ≡ tenant <> "-" <> suffix)

take-concat {ℓ} : {A : Type ℓ} (xs : List A) (x : A) → take (length xs) (xs ++ x ∷ []) ≡ xs
take-concat [] x = refl
take-concat (y ∷ xs) x = ap (◌∷◌ y) (take-concat xs x)

init-concat {ℓ} :
    {A : Type ℓ} (xs : List A) (x : A) → take (length (xs ++ x ∷ []) - 1) (xs ++ x ∷ []) ≡ xs
init-concat xs x =
    let e : length (xs ++ x ∷ []) - 1 ≡ length xs = omega (arith, length-append {ℓ} xs (x ∷ [])) in
    rw e (take-concat xs x)

-- The function on a subject with a last dash, and on one without a dash.
extract_eval_tenant_dash :
    (r s t : String)
    → Lacks "-" t
    → extract_eval_tenant r (s <> "-" <> t) ≡ (not (s == "") && r == s)
unfolding extract_eval_tenant
extract_eval_tenant_dash r s t h =
    rw (split-append_last "-" s t h, init-concat (split s "-") t, join-split s "-")

extract_eval_tenant_plain : (r s : String) → Lacks "-" s → extract_eval_tenant r s ≡ false
unfolding extract_eval_tenant
extract_eval_tenant_plain r s h = rw (split_lacking "-" s h)

-- A subject passes for a tenant exactly if the tenant's name is not empty and the subject is that
-- name, a dash, and a suffix without a dash.
pub extract_eval_tenant-eq-true_iff :
    (tenant v : String)
    → (extract_eval_tenant tenant v ≡ true) ↔ ((tenant ≢ "") × IsSubjectOf tenant v)
extract_eval_tenant-eq-true_iff tenant v = (to, from)
  where
    to : extract_eval_tenant tenant v ≡ true → (tenant ≢ "") × IsSubjectOf tenant v
    to e = elim (last_separator "-" v) [
      | inl h ↦ cc (extract_eval_tenant_plain tenant v h)
      | inr (s, t, h, same) ↦
          let q : (not (s == "") && tenant == s) ≡ true =
            sym (extract_eval_tenant_dash tenant s t h) ∙ (rw same at e) in
          let is : tenant ≡ s = ground (arith, eq_iff tenant s) in
          rw is (ground (arith, eq_iff s ""), (t, h, same))
    ]

    from : (tenant ≢ "") × IsSubjectOf tenant v → extract_eval_tenant tenant v ≡ true
    from (n, (t, h, same)) =
        rw (same, extract_eval_tenant_dash tenant tenant t h)
          (ground (arith, eq_iff tenant "", eq_iff tenant tenant))
