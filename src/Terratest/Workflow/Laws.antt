-- ===== src/Terratest/Workflow/Laws.antt =====
-- Lemmas on the errors of a `Workflow` (terratest/utils/extensions.go).
use k8gb.Prelude.{
  ◌≡◌, refl, sym, ◌∙◌, ◌↔◌, ◌⊎◌, inl, inr, String, Bool, true, false, Option, none, some, ◌==◌,
  arith,
}
use k8gb.Prelude.Int.{ℤ, ltb_ℤ, pos}
use k8gb.Effect.{Error, ok, Run, ◌>>=◌}
use k8gb.Terratest.{Kit, WithError}
use k8gb.Terratest.Workflow.{
  Workflow, error_if, fresh_workflow, given_gslb, get_manifest_name, last_error, name_in,
  new_workflow, start, with_error, with_gslb, with_ingress, wrapped,
}

with_error-error : (e : Option Error) (w : Workflow) → (with_error e w).error ≡ last_error w.error e
with_error-error none w = refl
with_error-error (some e) w = refl

last_error-none : (e f : Option Error) → (last_error e f ≡ none) ↔ ((e ≡ none) × (f ≡ none))
last_error-none e none = (λ h. (h, refl), λ h. h.0)
last_error-none e (some f) = (λ h. absurd (ground (arith, h)), λ h. h.1)

error_if-none : (b : Bool) (s : String) → (error_if b s ≡ none) ↔ (b ≡ false)
error_if-none true s = (λ h. absurd (ground (arith, h)), λ h. absurd (ground (arith, h)))
error_if-none false s = (λ h. refl, λ h. refl)

wrapped-none : (s t : String) (e : Option Error) → (wrapped s t e ≡ none) ↔ (e ≡ none)
wrapped-none s t none = (λ h. refl, λ h. refl)
wrapped-none s t (some e) = (λ h. absurd (ground (arith, h)), λ h. absurd (ground (arith, h)))

Option-cases : (e : Option Error) → (e ≡ none) ⊎ ((f : Error) × (e ≡ some f))
Option-cases none = inl refl
Option-cases (some f) = inr (f, refl)

module _ {W : Type 0} (kit : Kit W) where
  -- The steps of a test before its workflow is started.
  abbrev pub built : String → ℤ → String → String → String → Run W Workflow
  built cluster port ingress path host = do
    w ← new_workflow kit cluster port
    with_gslb kit path host (with_ingress kit ingress w)

  -- What the tests are to give: the errors are those of the absolute path, of reading the manifest
  -- there, and of decoding it.
  abbrev pub IsComplete :
      String → ℤ → String → String → String → Option Error → Option Error → Option Error → Type 0
  IsComplete cluster port ingress path host e_path e_read e_decode =
      (((cluster == "") ≡ false) × (ltb_ℤ port (pos 1000) ≡ false))
      × ((ingress == "") ≡ false)
      × ((host == "") ≡ false)
      × ((path == "") ≡ false)
      × (e_path ≡ none)
      × (e_read ≡ none)
      × (e_decode ≡ none)

  name_in-none :
      (path file : String) (e : Option Error)
      → ((name_in kit path file e).1 ≡ none) ↔ ((e ≡ none) × ((kit.unmarshal_name file).1 ≡ none))
  name_in-none path file none =
      let w = wrapped-none "unmarshall %s; %s" path (kit.unmarshal_name file).1 in
      (λ h. (refl, w.0 h), λ h. w.1 h.1)
  name_in-none path file (some e) =
      (λ h. absurd (ground (arith, h)), λ h. absurd (ground (arith, h.0)))

  start_refused :
      (w : Workflow) {e : Error}
      → w.error ≡ some e
      → (v : W) → start kit w v ≡ (ok (none, some e), v)
  unfolding start
  start_refused w h v = rw h refl

  module _ (cluster : String) (port : ℤ) (ingress path host : String) where
    abbrev outcome : String → WithError String → WithError String → Workflow
    outcome id absolute name =
        given_gslb kit path host absolute name
          (with_ingress kit ingress (fresh_workflow kit cluster port id))

    outcome-error :
        (id : String) (absolute name : WithError String)
        → (outcome id absolute name).error
          ≡ last_error
              (last_error
                (last_error
                  (last_error
                    (last_error
                      (last_error
                        (error_if (cluster == "") "empty cluster")
                        (error_if (ltb_ℤ port (pos 1000)) "invalid port"))
                      (error_if (ingress == "") "empty ingress resource path"))
                    (error_if (host == "") "empty gslb host"))
                  (error_if (path == "") "empty gslb resource path"))
                (wrapped "reading %s; %s" path absolute.1))
              name.1
    unfolding given_gslb with_ingress fresh_workflow
    outcome-error id absolute name = simp with_error-error

    outcome-IsComplete :
        (id path' file : String) (absolute : WithError String) (e_read : Option Error)
        → ((outcome id absolute (name_in kit path' file e_read)).error ≡ none)
          ↔ IsComplete cluster port ingress path host absolute.1 e_read (kit.unmarshal_name file).1
    outcome-IsComplete id path' file absolute e_read =
        let chain = outcome-error id absolute (name_in kit path' file e_read) in
        (
          λ h.
              let (h6, n) = (last_error-none _ _).0 (sym chain ∙ h) in
              let (h5, a) = (last_error-none _ _).0 h6 in
              let (h4, p) = (last_error-none _ _).0 h5 in
              let (h3, o) = (last_error-none _ _).0 h4 in
              let (h2, i) = (last_error-none _ _).0 h3 in
              let (c, t) = (last_error-none _ _).0 h2 in
              let (r, d) = (name_in-none path' file e_read).0 n in
              (
                ((error_if-none _ _).0 c, (error_if-none _ _).0 t),
                (error_if-none _ _).0 i,
                (error_if-none _ _).0 o,
                (error_if-none _ _).0 p,
                (wrapped-none _ _ _).0 a,
                r,
                d,
              ),
          λ ((c, t), i, o, p, a, r, d).
              chain
              ∙ (last_error-none _ _).1 (
                (last_error-none _ _).1 (
                  (last_error-none _ _).1 (
                    (last_error-none _ _).1 (
                      (last_error-none _ _).1 (
                        (last_error-none _ _).1 ((error_if-none _ _).1 c, (error_if-none _ _).1 t),
                        (error_if-none _ _).1 i,
                      ),
                      (error_if-none _ _).1 o,
                    ),
                    (error_if-none _ _).1 p,
                  ),
                  (wrapped-none _ _ _).1 a,
                ),
                (name_in-none path' file e_read).1 (r, d),
              ),
        )

    module _ (u : W) {id file : String} {absolute : WithError String} {e_read : Option Error}
        {u1 u2 u3 : W} (named : kit.unique_id u ≡ (ok id, u1))
        (made : kit.abs path u1 ≡ (ok absolute, u2))
        (loaded : kit.read_file absolute.0 u2 ≡ (ok (file, e_read), u3)) where
      -- A workflow is built without ending the test. If all that it takes is given, then it has no
      -- error. Otherwise it has one, with which its start is refused before anything is done.
      pub built-verdict :
          (w : Workflow) × (built cluster port ingress path host u ≡ (ok w, u3))
          × ((IsComplete cluster port ingress path host absolute.1 e_read
                  (kit.unmarshal_name file).1
                × (w.error ≡ none))
              ⊎ ((¬ IsComplete cluster port ingress path host absolute.1 e_read
                    (kit.unmarshal_name file).1)
                  × (e : Error) × ((v : W) → start kit w v ≡ (ok (none, some e), v))))
      unfolding new_workflow with_gslb get_manifest_name
      built-verdict =
          let name = name_in kit absolute.0 file e_read in
          let complete = outcome-IsComplete id absolute.0 file absolute e_read in
          (
            outcome id absolute name,
            rw (named, made, loaded) refl,
            elim (Option-cases (outcome id absolute name).error) [
              | inl h ↦ inl (complete.0 h, h)
              | inr (e, h) ↦ inr (
                λ c. absurd (ground (arith, h, complete.1 c)),
                e,
                start_refused (outcome id absolute name) h,
              )
            ],
          )
