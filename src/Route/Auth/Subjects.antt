-- ===== src/Route/Auth/Subjects.antt =====
-- Who may manage a topic.
use pulsar_beam.Prelude.{
  String, true, ◌||◌, ◌≡◌, ◌≢◌, ◌↔◌, ◌⊎◌, inl, inr, sym, List, [], ◌∷◌, Any, here, there, ok,
  ok-injective, arith, eq_iff, ◌==◌, Bool-cases,
}
use pulsar_beam.Strings.{◌<>◌, trim_space, split}
use pulsar_beam.Strings.Splitting.{Lacks, split-append, split-ne-nil}
use pulsar_beam.Strings.Lengths.{len-pos}
use pulsar_beam.Util.{str_contains, build_topic_fn}
use pulsar_beam.Util.Clusters.{str_contains-eq-true_iff}
use pulsar_beam.Route.Auth.{
  extract_eval_tenant, verify_parts, verify_subject, verify_subject_based_on_topic,
}
use pulsar_beam.Route.Auth.Tenants.{IsSubjectOf, extract_eval_tenant-eq-true_iff}

-- A subject of the token that opens the tenant's topics: a super role, the tenant itself, or a
-- subject of the tenant.
abbrev pub Grants : List String → String → String → Type 0
Grants super_roles tenant v =
    Any (λ role. trim_space role ≡ trim_space v) super_roles ⊎ (tenant ≡ v) ⊎ IsSubjectOf tenant v

module _ (super_roles : List String) (tenant : String) (named : tenant ≢ "") where
  -- One round of the loop.
  Grants-test :
      (v : String)
      → (str_contains super_roles v || tenant == v || extract_eval_tenant tenant v) ≡ true
      → Grants super_roles tenant v
  Grants-test v e = elim (Bool-cases (str_contains super_roles v)) [
    | inl h ↦ inl ((str_contains-eq-true_iff super_roles v).0 h)
    | inr h ↦ elim (Bool-cases (tenant == v)) [
      | inl k ↦ inr (inl ((eq_iff tenant v).0 k))
      | inr k ↦ inr (inr ((extract_eval_tenant-eq-true_iff tenant v).0 (ground arith)).1)
    ]
  ]

  test-Grants :
      (v : String)
      → Grants super_roles tenant v
      → (str_contains super_roles v || tenant == v || extract_eval_tenant tenant v) ≡ true
  test-Grants v (inl a) = rw ((str_contains-eq-true_iff super_roles v).1 a)
  test-Grants v (inr (inl e)) = ground (arith, eq_iff tenant v)
  test-Grants v (inr (inr s)) =
      ground (arith, (extract_eval_tenant-eq-true_iff tenant v).1 (named, s))

  verify_parts-Any :
      (subjects : List String)
      → verify_parts super_roles tenant subjects extract_eval_tenant ≡ true
      → Any (Grants super_roles tenant) subjects
  unfolding verify_parts
  verify_parts-Any [] e = cc
  verify_parts-Any (v ∷ subjects) e =
      elim (Bool-cases
        (str_contains super_roles v || tenant == v || extract_eval_tenant tenant v)) [
          | inl h ↦ here (Grants-test v h)
          | inr h ↦ there (verify_parts-Any subjects (ground arith))
        ]

  Any-verify_parts :
      (subjects : List String)
      → Any (Grants super_roles tenant) subjects
      → verify_parts super_roles tenant subjects extract_eval_tenant ≡ true
  unfolding verify_parts
  Any-verify_parts [] a = elim a [ ]
  Any-verify_parts (v ∷ subjects) (here g) = ground (arith, test-Grants v g)
  Any-verify_parts (v ∷ subjects) (there a) = ground (arith, Any-verify_parts subjects a)

  -- The tenant of a name that starts with `scheme:`, two slashes and the tenant.
  verify-scheme :
      (scheme rest subjects : String)
      → Lacks "/" scheme
      → Lacks "/" tenant
      → verify_subject_based_on_topic super_roles
          (scheme <> "//" <> tenant <> "/" <> rest)
          subjects
          extract_eval_tenant
        ≡ verify_subject super_roles tenant subjects extract_eval_tenant
  unfolding verify_subject_based_on_topic
  verify-scheme scheme rest subjects h k =
      let (p, ps, e) = split-ne-nil rest "/" in
      rw
        (
          split-append "/" scheme ("/" <> tenant <> "/" <> rest) h,
          split-append "/" "" (tenant <> "/" <> rest) tt,
          split-append "/" tenant rest k,
          e,
        )
        (ground (arith, len-pos tenant named))

-- The form of a full name.
build_topic_fn-form :
    (persistent tenant namespace topic fn : String)
    → build_topic_fn persistent tenant namespace topic ≡ ok fn
    → (scheme : String) × Lacks "/" scheme
      × (fn ≡ scheme <> "//" <> tenant <> "/" <> namespace <> "/" <> topic)
unfolding build_topic_fn
build_topic_fn-form persistent tenant namespace topic fn e =
    elim (Bool-cases (persistent == "persistent" || persistent == "p")) [
      | inl h ↦ ("persistent:", ground arith, sym (ok-injective (rw h at e)))
      | inr h ↦ elim (Bool-cases (persistent == "non-persistent" || persistent == "np")) [
        | inl k ↦ ("non-persistent:", ground arith, sym (ok-injective (rw (h, k) at e)))
        | inr k ↦ absurd (cc (rw (h, k) at e))
      ]
    ]

-- Over a topic whose full name was built for a tenant with a name and without a slash, a list of
-- token subjects has the say exactly if one of them grants it: a super role up to spaces, the
-- tenant's name, or the tenant's name with a dash and a suffix without a dash.
pub verify-build_topic_fn_iff :
    (super_roles : List String) (persistent tenant namespace topic fn subjects : String)
    → tenant ≢ ""
    → Lacks "/" tenant
    → build_topic_fn persistent tenant namespace topic ≡ ok fn
    → (verify_subject_based_on_topic super_roles fn subjects extract_eval_tenant ≡ true)
      ↔ Any (Grants super_roles tenant) (split subjects ",")
unfolding verify_subject
verify-build_topic_fn_iff super_roles persistent tenant namespace topic fn subjects named k e =
    let (scheme, h, same) = build_topic_fn-form persistent tenant namespace topic fn e in
    let verified =
      verify-scheme super_roles tenant named scheme (namespace <> "/" <> topic) subjects h k in
    rw (same, verified)
      (
        verify_parts-Any super_roles tenant named (split subjects ","),
        Any-verify_parts super_roles tenant named (split subjects ","),
      )
