-- ===== src/Route/Auth.antt =====
-- The authorization of src/route/handlers.go: which subjects of a token may manage a topic.
pub mod Tenants
pub mod Subjects
use Prim.Native.String.{len}
use pulsar_beam.Prelude.{
  ℕ, ◌-◌, String, Bool, true, false, ◌&&◌, ◌||◌, not, Option, none, some, List, [], ◌∷◌, length,
  take, get_elem?, ltb, if◌then◌else◌, ◌==◌,
}
use pulsar_beam.Strings.{split, join}
use pulsar_beam.Util.{str_contains}

-- `parts[:len(parts)-1]` joined again. The part that is assigned to `sub` where there is only one is
-- overwritten by it.
unfoldable pub extract_eval_tenant : String → String → Bool
unfolding split join
extract_eval_tenant required_subject token_sub =
    let parts = split token_sub "-" in
    let sub = join (take (length parts - 1) parts) "-" in not (sub == "") && required_subject == sub

-- The loop of `VerifySubject`.
unfoldable pub verify_parts : List String → String → List String → (String → String → Bool) → Bool
unfolding str_contains
verify_parts super_roles required_subject [] eval_tenant = false
verify_parts super_roles required_subject (v ∷ subjects) eval_tenant =
    str_contains super_roles v
    || required_subject == v
    || eval_tenant required_subject v
    || verify_parts super_roles required_subject subjects eval_tenant

unfoldable pub verify_subject : List String → String → String → (String → String → Bool) → Bool
unfolding verify_parts split
verify_subject super_roles required_subject token_subjects eval_tenant =
    verify_parts super_roles required_subject (split token_subjects ",") eval_tenant

abbrev verify_tenant : List String → String → (String → String → Bool) → Option String → Bool
verify_tenant super_roles token_sub eval_tenant none = false
verify_tenant super_roles token_sub eval_tenant (some tenant) =
    if ltb (len tenant) 1 then false else verify_subject super_roles tenant token_sub eval_tenant

unfoldable pub verify_subject_based_on_topic :
    List String → String → String → (String → String → Bool) → Bool
unfolding verify_subject
verify_subject_based_on_topic super_roles topic_fn token_sub eval_tenant =
    let parts = split topic_fn "/" in
    if ltb (length parts) 4
    then false
    else verify_tenant super_roles token_sub eval_tenant (get_elem? parts 2)
