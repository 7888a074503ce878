-- ===== src/Data/Manager/Scripts.antt =====
-- Finding the description of a script.
use rpp_cpp.Base.{
  ℕ, zero, suc, ◌<◌, ◌≡◌, ◌≢◌, inl, inr, Bool, true, false, Bool-cases, String, ◌<>◌, eq_iff, arith,
}
use rpp_cpp.Base.Result.{ok, err, out_of_fuel}
use rpp_cpp.Files.{Filesystem, ParentsEnd}
use rpp_cpp.Data.Manager.{find_workspace, get_default_script_description_path}

module _ (fs : Filesystem) where
  -- The directory that lies `n` levels above.
  abbrev pub above : ℕ → String → String
  above zero p = p
  above (suc n) p = above n (fs.parent_path p)

  abbrev pub is_workspace : String → Bool
  is_workspace p = fs.is_directory (fs.join p ".rppws")

  find_workspace-ends :
      (size : String → ℕ)
      → ParentsEnd fs size
      → (fuel : ℕ) (script p : String) → size p < fuel
      → find_workspace fs fuel script p ≢ err out_of_fuel
  unfolding find_workspace
  find_workspace-ends size e zero script p h = elim h [ ]
  find_workspace-ends size e (suc fuel) script p h = ground (
    arith,
    e.shorter p,
    eq_iff (fs.parent_path p) p,
    find_workspace-ends size e fuel script (fs.parent_path p),
  )

  -- The search for a script's workspace ends, with fuel above the size of the script's path.
  pub default_description-ends :
      (size : String → ℕ)
      → ParentsEnd fs size
      → (fuel : ℕ) (script : String) → size script < fuel
      → get_default_script_description_path fs fuel script ≢ err out_of_fuel
  unfolding get_default_script_description_path
  default_description-ends size e fuel script h =
      find_workspace-ends size e fuel script (fs.parent_path script)
        (ground (arith, e.shorter script))

  find_workspace-nearest :
      (fuel : ℕ) (script p r : String)
      → find_workspace fs fuel script p ≡ ok r
      → (n : ℕ) × (is_workspace (above n p) ≡ true)
        × (r
            ≡ fs.join
                (fs.join (fs.join (above n p) ".rppws") "script_descriptions")
                (fs.stem script <> ".json"))
        × ((i : ℕ) → i < n → is_workspace (above i p) ≡ false)
  unfolding find_workspace
  find_workspace-nearest zero script p r h = cc
  find_workspace-nearest (suc fuel) script p r h = elim (Bool-cases (is_workspace p)) [
    | inl w ↦ (0, w, ground arith, λ i lt. absurd (omega arith))
    | inr w ↦
        let h' : find_workspace fs fuel script (fs.parent_path p) ≡ ok r = ground arith in
        let (n, w', e, none_below) = find_workspace-nearest fuel script (fs.parent_path p) r h' in
        (suc n, w', e, later n w none_below)
  ]
    where
      later :
          (n : ℕ)
          → is_workspace p ≡ false
          → ((i : ℕ) → i < n → is_workspace (above i (fs.parent_path p)) ≡ false)
          → (i : ℕ) → i < suc n
          → is_workspace (above i p) ≡ false
      later n w below zero lt = w
      later n w below (suc i) lt = below i (omega arith)

  -- A default description lies in the nearest workspace above the script, under the script's name.
  pub default_description-nearest :
      (fuel : ℕ) (script r : String)
      → get_default_script_description_path fs fuel script ≡ ok r
      → (n : ℕ) × (is_workspace (above n (fs.parent_path script)) ≡ true)
        × (r
            ≡ fs.join
                (fs.join (fs.join (above n (fs.parent_path script)) ".rppws") "script_descriptions")
                (fs.stem script <> ".json"))
        × ((i : ℕ) → i < n → is_workspace (above i (fs.parent_path script)) ≡ false)
  unfolding get_default_script_description_path
  default_description-nearest fuel script r h =
      find_workspace-nearest fuel script (fs.parent_path script) r h
