-- ===== src/Loader/Handles.antt =====
-- What becomes of the libraries that the loading functions open, and of the objects from them.
use rpp_cpp.Base.{
  ℕ, suc, ◌≡◌, ◌≢◌, refl, Bool, true, false, String, ◌<>◌, List, [], ◌∷◌, ◌++◌, Option, none, some,
  arith, nat_eq, if◌then◌else◌,
}
use rpp_cpp.Base.Result.{Result, ok, err, Error, runtime_error}
use mathlib.Core.List.{append_assoc, append-nil}
use rpp_cpp.Paths.{get_app_registry_dir}
use rpp_cpp.Data.Plugin.{PluginInfo}
use rpp_cpp.Loader.{
  Opening, handle, open_failed, Symbol, factory, null_symbol, symbol_error, Linker, RppPtr, Effect,
  opened, closed, deleted, client_params, server_params, Traced, then_do,
  load_cpp_plugin_description, load_cpp_plugin_from_shared_library, release_any, from_symbol,
  load_from_shared_library, configured, configure_loaded, load_plugin_adapter_client,
  load_plugin_adapter_server, ClientAdapterParams, ServerAdapterParams,
}

abbrev take_handle : ℕ → List ℕ → Option (List ℕ)
take_handle h [] = none
take_handle h (k ∷ held) = if nat_eq h k then some held else none

-- The handles held after the effects, the last one opened first; `none` where a handle is closed,
-- or an object of its library deleted, that is not the one last opened.
unfoldable pub held_after : List ℕ → List Effect → Option (List ℕ)
held_after held [] = some held
held_after held (opened h ∷ effects) = held_after (h ∷ held) effects
held_after held (closed h ∷ effects) = elim (take_handle h held) [
  | none ↦ none
  | some rest ↦ held_after rest effects
]
held_after held (deleted h ∷ effects) = elim (take_handle h held) [
  | none ↦ none
  | some rest ↦ held_after held effects
]

-- How often an object was deleted.
unfoldable pub deletions : List Effect → ℕ
deletions [] = 0
deletions (opened h ∷ effects) = deletions effects
deletions (closed h ∷ effects) = deletions effects
deletions (deleted h ∷ effects) = suc (deletions effects)

module _ {Object : Type 0} where
  -- What a call did, and the destruction of what it returned.
  abbrev pub lifetime : Traced (Option (RppPtr Object)) → List Effect
  lifetime (effects, err e) = effects
  lifetime (effects, ok p) = effects ++ release_any p

  abbrev pub Returns : Linker Object → Type 0
  Returns linker = (h : ℕ) (name : String) (e : Error) → linker.dlsym h name ≢ factory (err e)

  -- The effects of a call, with its result's destruction, from the held handles.
  abbrev Restores : List ℕ → List ℕ → Traced (Option (RppPtr Object)) → Type 0
  Restores before after t = held_after before (lifetime t) ≡ some after

  from_symbol-Restores :
      (held : List ℕ) (h : ℕ) (path name : String) (delete_on_close allow_nullptr : Bool)
      (s : Symbol Object)
      → ((e : Error) → s ≢ factory (err e))
      → Restores (h ∷ held) held (from_symbol h path name delete_on_close allow_nullptr s)
  unfolding from_symbol held_after
  from_symbol-Restores held h path name delete_on_close allow_nullptr null_symbol r = ground arith
  from_symbol-Restores held h path name delete_on_close allow_nullptr (symbol_error e) r =
      ground arith
  from_symbol-Restores held h path name delete_on_close allow_nullptr (factory (err e)) r =
      absurd (r e refl)
  from_symbol-Restores held h path name delete_on_close allow_nullptr (factory (ok none)) r =
      ground arith
  from_symbol-Restores held h path name delete_on_close allow_nullptr (factory (ok (some o))) r =
      ground arith

  -- The objects that a loading makes: one where the library opens and its factory returns one.
  abbrev pub made_by : Symbol Object → ℕ
  made_by (factory (ok (some o))) = 1
  made_by (factory (ok none)) = 0
  made_by (factory (err e)) = 0
  made_by null_symbol = 0
  made_by (symbol_error e) = 0

  abbrev pub made : String → Linker Object → String → String → ℕ
  made home linker path name = elim (linker.dlopen ((home <> "/registry") <> "/" <> path)) [
    | open_failed e ↦ 0
    | handle h ↦ made_by (linker.dlsym h name)
  ]

  abbrev Deletes : ℕ → Traced (Option (RppPtr Object)) → Type 0
  Deletes n t = deletions (lifetime t) ≡ n

  -- Whoever owns the object deletes it once.
  from_symbol-Deletes :
      (h : ℕ) (path name : String) (delete_on_close allow_nullptr : Bool) (s : Symbol Object)
      → Deletes
          (if delete_on_close then made_by s else 0)
          (from_symbol h path name delete_on_close allow_nullptr s)
  unfolding from_symbol deletions
  from_symbol-Deletes h path name delete_on_close allow_nullptr null_symbol = ground arith
  from_symbol-Deletes h path name delete_on_close allow_nullptr (symbol_error e) = ground arith
  from_symbol-Deletes h path name delete_on_close allow_nullptr (factory (err e)) = ground arith
  from_symbol-Deletes h path name delete_on_close allow_nullptr (factory (ok none)) = ground arith
  from_symbol-Deletes h path name delete_on_close allow_nullptr (factory (ok (some o))) =
      ground arith

  lifetime-then_do :
      (before : List Effect) (t : Traced (Option (RppPtr Object)))
      → lifetime (then_do before t) ≡ before ++ lifetime t
  lifetime-then_do before (effects, err e) = refl
  lifetime-then_do before (effects, ok p) = append_assoc before effects (release_any p)

  load-Restores :
      (home : String) (linker : Linker Object) (held : List ℕ) (path name : String)
      (delete_on_close allow_nullptr : Bool)
      → Returns linker
      → Restores held held
          (load_from_shared_library home linker path name delete_on_close allow_nullptr)
  unfolding load_from_shared_library
  load-Restores home linker held path name delete_on_close allow_nullptr r =
      go (linker.dlopen (get_app_registry_dir home <> "/" <> path))
    where
      path_abs : String
      path_abs = get_app_registry_dir home <> "/" <> path

      go :
          (o : Opening)
          → Restores held held (elim o [
            | open_failed e ↦
                ([], err (runtime_error ("dlopen failed for '" <> path_abs <> "': " <> e)))
            | handle h ↦
                then_do
                  (opened h ∷ [])
                  (from_symbol h path_abs name delete_on_close allow_nullptr (linker.dlsym h name))
          ])
      go (open_failed e) = unfold held_after in refl
      go (handle h) =
          rw
            (lifetime-then_do (opened h ∷ [])
              (from_symbol h path_abs name delete_on_close allow_nullptr (linker.dlsym h name)))
            (unfold held_after in
              from_symbol-Restores held h path_abs name delete_on_close allow_nullptr
                (linker.dlsym h name) (r h name))

  load-Deletes :
      (home : String) (linker : Linker Object) (path name : String)
      (delete_on_close allow_nullptr : Bool)
      → Deletes
          (if delete_on_close then made home linker path name else 0)
          (load_from_shared_library home linker path name delete_on_close allow_nullptr)
  unfolding load_from_shared_library get_app_registry_dir
  load-Deletes home linker path name delete_on_close allow_nullptr =
      go (linker.dlopen ((home <> "/registry") <> "/" <> path))
    where
      path_abs : String
      path_abs = (home <> "/registry") <> "/" <> path

      go :
          (o : Opening)
          → Deletes
              (if delete_on_close
                then (elim o [ open_failed e ↦ 0 | handle h ↦ made_by (linker.dlsym h name) ])
                else 0)
              (elim o [
                | open_failed e ↦
                    ([], err (runtime_error ("dlopen failed for '" <> path_abs <> "': " <> e)))
                | handle h ↦ then_do (opened h ∷ []) (
                    from_symbol h path_abs name delete_on_close allow_nullptr (linker.dlsym h name))
              ])
      go (open_failed e) = unfold deletions in ground arith
      go (handle h) =
          rw
            (lifetime-then_do (opened h ∷ [])
              (from_symbol h path_abs name delete_on_close allow_nullptr (linker.dlsym h name)))
            (unfold deletions in
              from_symbol-Deletes h path_abs name delete_on_close allow_nullptr
                (linker.dlsym h name))

  configure-Deletes :
      (n : ℕ) (side : String) (info : PluginInfo) (configure : Object → Result (Bool × Object))
      (t : Traced (Option (RppPtr Object)))
      → Deletes n t
      → Deletes n (configure_loaded side info configure t)
  unfolding configure_loaded configured
  configure-Deletes n side info configure (effects, err e) h = h
  configure-Deletes n side info configure (effects, ok none) h = h
  configure-Deletes n side info configure (effects, ok (some p)) h = go (configure p.object)
    where
      go : (r : Result (Bool × Object)) → Deletes n (then_do effects (configured side info p r))
      go (err e) = h
      go (ok (false, o)) = h
      go (ok (true, o)) = rw append-nil h

  configure-Restores :
      (held : List ℕ) (side : String) (info : PluginInfo)
      (configure : Object → Result (Bool × Object)) (t : Traced (Option (RppPtr Object)))
      → Restores held held t
      → Restores held held (configure_loaded side info configure t)
  unfolding configure_loaded configured
  configure-Restores held side info configure (effects, err e) h = h
  configure-Restores held side info configure (effects, ok none) h = h
  configure-Restores held side info configure (effects, ok (some p)) h = go (configure p.object)
    where
      go :
          (r : Result (Bool × Object))
          → Restores held held (then_do effects (configured side info p r))
      go (err e) = h
      go (ok (false, o)) = h
      go (ok (true, o)) = rw append-nil h

  -- The handles and the objects are as many after a call, and the destruction of what it returned,
  -- as before.
  abbrev pub IsBalanced : List ℕ → ℕ → Traced (Option (RppPtr Object)) → Type 0
  IsBalanced held n t = (held_after held (lifetime t) ≡ some held) × (deletions (lifetime t) ≡ n)

  -- Every call that loads an object from a shared library, of the program's own or with a client or
  -- server adapter around it, closes each handle that it was given exactly once: before a throw, or
  -- when the object that it returned is destroyed. The object that a library's factory made is
  -- deleted exactly once, while its library is open; that of a description, which the library keeps,
  -- is never deleted. It holds where no factory throws.
  pub loading-restores :
      {Plugin : Type 0} (home : String) (linker : Linker Object)
      (configure_client : Object → ClientAdapterParams → Result (Bool × Object))
      (configure_server : Object → ServerAdapterParams Plugin → Result (Bool × Object))
      (plugin : Plugin) (info : PluginInfo) (name connection_name create_symbol : String)
      (held : List ℕ)
      → Returns linker
      → IsBalanced held 0 (load_cpp_plugin_description home linker info create_symbol)
        × IsBalanced held
            (made home linker info.plugin_shared_library_path create_symbol)
            (load_cpp_plugin_from_shared_library home linker info create_symbol)
        × IsBalanced held (made home linker info.plugin_type_shared_library_path create_symbol) (
            load_plugin_adapter_client home linker configure_client info name connection_name
              create_symbol)
        × IsBalanced held (made home linker info.plugin_type_shared_library_path create_symbol) (
            load_plugin_adapter_server home linker configure_server info plugin name connection_name
              create_symbol)
  unfolding load_cpp_plugin_description load_cpp_plugin_from_shared_library
      load_plugin_adapter_client load_plugin_adapter_server
  loading-restores home linker configure_client configure_server plugin info name connection_name
        create_symbol held r =
      let loads =
        λ (path : String) (d n : Bool). load-Restores home linker held path create_symbol d n r in
      let deletes =
        λ (path : String) (d n : Bool). load-Deletes home linker path create_symbol d n in
      let library =
        load_from_shared_library home linker info.plugin_type_shared_library_path create_symbol true
          false in
      let client = λ (o : Object). configure_client o (client_params info name connection_name) in
      let server =
        λ (o : Object). configure_server o (server_params info plugin name connection_name) in
      (
        (
          loads info.plugin_shared_library_path false true,
          deletes info.plugin_shared_library_path false true,
        ),
        (
          loads info.plugin_shared_library_path true false,
          deletes info.plugin_shared_library_path true false,
        ),
        (
          configure-Restores held "client" info client library
              (loads info.plugin_type_shared_library_path true false),
          configure-Deletes (made home linker info.plugin_type_shared_library_path create_symbol)
              "client" info client library
              (deletes info.plugin_type_shared_library_path true false),
        ),
        (
          configure-Restores held "server" info server library
              (loads info.plugin_type_shared_library_path true false),
          configure-Deletes (made home linker info.plugin_type_shared_library_path create_symbol)
              "server" info server library
              (deletes info.plugin_type_shared_library_path true false),
        ),
      )

  -- A factory that throws leaves its library open.
  pub thrown-held :
      (home : String) (linker : Linker Object) (path name : String)
      (delete_on_close allow_nullptr : Bool) (h : ℕ) (e : Error)
      → linker.dlopen (get_app_registry_dir home <> "/" <> path) ≡ handle h
      → linker.dlsym h name ≡ factory (err e)
      → load_from_shared_library home linker path name delete_on_close allow_nullptr
        ≡ (opened h ∷ [], err e)
  unfolding load_from_shared_library from_symbol get_app_registry_dir
  thrown-held home linker path name delete_on_close allow_nullptr h e opens throws =
      rw (opens, throws, load_from_shared_library) refl
