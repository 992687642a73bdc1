-- ===== src/Fetch/Extract.antt =====
-- What `writeEntry`, `extractTarGz` and `extractZip` of internal/fetch/fetch.go can touch.
use red_engine.Prelude.{
  ◌≡◌, refl, ◌⊎◌, ◌≢◌, inl, inr, Bool, ◌||◌, List, [], ◌∷◌, arith, All, Bool-cases,
}
use red_engine.Text.{Text, ◌==◌, eq_iff, has_prefix, trim_prefix}
use red_engine.Go.FilePath.{slash, dot_dot, clean, dir}
use red_engine.Fetch.{
  Call, make_dir, write_file, Entry, entry_calls, run_calls, write_entry, extract,
}
use red_engine.Go.FilePath.Below.{IsBelow, IsBelow-guarded}

-- A file is written at the directory or below it. A directory is made there, or it is the parent of
-- such a path: for the directory itself that is the one above.
abbrev pub IsWithin : Text → Call → Type 0
IsWithin dest (make_dir d) = IsBelow dest d ⊎ ((t : Text) × IsBelow dest t × (d ≡ dir t))
IsWithin dest (write_file t c) = IsBelow dest t

entry_calls-IsWithin :
    (dest : Text) (e : Entry) → dest ≢ [] → All (IsWithin dest) (entry_calls dest e)
unfolding entry_calls
entry_calls-IsWithin dest e h =
    let rel = trim_prefix (clean e.name) slash in
    elim (Bool-cases (rel == [] || has_prefix rel dot_dot)) [
      | inl blocked ↦ rw blocked tt
      | inr passed ↦
          let below =
            IsBelow-guarded dest e.name h (ground (arith, eq_iff rel [])) (ground arith) in
          rw passed (elim (Bool-cases e.is_dir) [
            | inl d ↦ rw d (inl below, tt)
            | inr f ↦ rw f (inr (_, below, refl), (below, tt))
          ])
    ]

module _ {State : Type 0} (run : Call → State → Bool × State) (P : State → Type 0) (dest : Text)
    (keeps : (c : Call) (s : State) → IsWithin dest c → P s → P (run c s).1) where
  run_calls_keeps :
      (cs : List Call) (s : State) → All (IsWithin dest) cs → P s → P (run_calls run cs s).1
  unfolding run_calls
  run_calls_keeps [] s h p = p
  run_calls_keeps (c ∷ cs) s (b, h) p = elim (Bool-cases (run c s).0) [
    | inl e ↦ rw e (run_calls_keeps cs (run c s).1 h (keeps c s b p))
    | inr e ↦ rw e (keeps c s b p)
  ]

  -- Whatever the archive holds, and wherever its extraction into a named directory stops: what
  -- holds of the disk before, and is kept by the writing of any file at the directory or below it and
  -- by the making of any directory there or of the parent of such a path, holds afterwards.
  pub extract_keeps :
      (es : List Entry) (ended : Bool) (s : State)
      → dest ≢ []
      → P s
      → P (extract run dest es ended s).1
  unfolding extract write_entry
  extract_keeps [] ended s h p = p
  extract_keeps (e ∷ es) ended s h p =
      let p' = run_calls_keeps (entry_calls dest e) s (entry_calls-IsWithin dest e h) p in
      elim (Bool-cases (write_entry run dest e s).0) [
        | inl ok ↦ rw ok (extract_keeps es ended (write_entry run dest e s).1 h p')
        | inr failed ↦ rw failed p'
      ]
