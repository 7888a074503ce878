-- ===== src/Builder/Resolve.antt =====
-- Which record a component's folder stands for.
use mathlib.Core.Path.{subst}
use rpp_cpp.Base.{◌≡◌, ◌≢◌, ap, ◌∙◌, ◌⊎◌, inl, inr, true, not, String, ◌<>◌, ◌==◌, eq_iff, arith}
use rpp_cpp.Base.Result.{ok, guard, ok_inj, >>=-eq-ok}
use rpp_cpp.Data.Component.{ComponentRecord, LinkedComponentRecord}
use rpp_cpp.Data.Manager.{get_linked_component_folder_path, get_plugin_id_from_name}
use rpp_cpp.Builder.{Environment, load, unlinked, followed, resolve_component}

module _ {Plugin Process : Type 0} (env : Environment Plugin Process) where
  -- The folder that a link leads to.
  abbrev pub target : String → String → LinkedComponentRecord → String
  target parent plugin_name l =
      parent <> "/../../" <> get_plugin_id_from_name plugin_name <> "/" <> l.linked_component_id

  linked_path :
      (parent plugin_name path : String) (l : LinkedComponentRecord)
      → get_linked_component_folder_path env.fs parent plugin_name l.linked_component_id ≡ ok path
      → (path ≡ target parent plugin_name l) × (env.fs.exists path ≡ true)
  unfolding get_linked_component_folder_path
  linked_path parent plugin_name path l e = ground (arith, e)

  unlinked-eq-ok :
      (x : ComponentRecord ⊎ LinkedComponentRecord) (r : ComponentRecord)
      → unlinked env x ≡ ok r
      → x ≡ inl r
  unfolding unlinked
  unlinked-eq-ok (inl c) r e = ap inl (ok_inj e)
  unlinked-eq-ok (inr l) r e = cc

  abbrev pub Followed : String → String → String → ComponentRecord → Type 0
  Followed path parent plugin_name r =
      (l : LinkedComponentRecord) × (load env path ≡ ok (inr l))
      × (plugin_name ≢ "")
      × (env.fs.exists (target parent plugin_name l) ≡ true)
      × (load env (target parent plugin_name l) ≡ ok (inl r))

  followed_link :
      (parent plugin_name : String) (l : LinkedComponentRecord) (r : ComponentRecord)
      → followed env parent plugin_name (inr l) ≡ ok r
      → (plugin_name ≢ "")
        × (env.fs.exists (target parent plugin_name l) ≡ true)
        × (load env (target parent plugin_name l) ≡ ok (inl r))
  unfolding followed
  followed_link parent plugin_name l r e =
      let (_, g, e1) = >>=-eq-ok (guard (not (plugin_name == "")) _) _ e in
      let (path, f, e2) =
        >>=-eq-ok (get_linked_component_folder_path env.fs parent plugin_name l.linked_component_id)
          _ e1 in
      let (x, h, e3) = >>=-eq-ok (load env path) _ e2 in
      let (p, q) = linked_path parent plugin_name path l f in
      (
        ground (arith, g, eq_iff plugin_name ""),
        subst (λ d. env.fs.exists d ≡ true) p q,
        subst (λ d. load env d ≡ ok (inl r)) p (h ∙ ap ok (unlinked-eq-ok x r e3)),
      )

  -- A record that a folder resolves to is the folder's own, or that of the one folder its link leads
  -- to, which exists, is no link itself, and is named by a plugin's name that is not empty.
  pub resolve_component_sound :
      (path parent plugin_name : String) (r : ComponentRecord)
      → resolve_component env path parent plugin_name ≡ ok r
      → (load env path ≡ ok (inl r)) ⊎ Followed path parent plugin_name r
  unfolding resolve_component
  resolve_component_sound path parent plugin_name r e =
      let (x, f, e1) = >>=-eq-ok (load env path) _ e in which x f e1
    where
      which :
          (x : ComponentRecord ⊎ LinkedComponentRecord)
          → load env path ≡ ok x
          → followed env parent plugin_name x ≡ ok r
          → (load env path ≡ ok (inl r)) ⊎ Followed path parent plugin_name r
      which (inl c) f e1 = inl (f ∙ ap (λ y. ok (inl y)) (unfold followed in ok_inj e1))
      which (inr l) f e1 =
          let (a, b, c) = followed_link parent plugin_name l r e1 in inr (l, f, a, b, c)
