-- ===== src/Main/Kill.antt =====
-- api/cmd/kamado-api/main.go: killCKPool, over what /proc answers.
use kamado_pool.Base.{
  ◌≡◌, refl, Bool, not, List, [], ◌∷◌, ◌++◌, Option, none, some, String, if◌then◌else◌, All, ap,
  sym, ◌∙◌, append_nil,
}
use kamado_pool.Base.Word.{Int64}
use kamado_pool.Base.Text.{contains}
use kamado_pool.Base.Decimal.{parse_int}

-- os.ReadDir of /proc (each name, and whether it is a directory), os.ReadFile of a process's cmdline,
-- os.FindProcess and Signal
pub record Proc : Type 0 where
  pub entries : Option (List (String × Bool))
  pub cmdline : Int64 → Option String
  pub finds : Int64 → Bool
  pub signals : Int64 → Bool

-- what the function returns; `signalled` has the answer of Signal
pub data Kill : Type 0 where
  unreadable not_running : Kill
  no_process : Int64 → Kill
  signalled : Int64 → Bool → Kill

module _ (proc : Proc) where
  -- the process of an entry of /proc, if it is one of ckpool
  unfoldable pub ckpool_pid : String × Bool → Option Int64
  ckpool_pid (name, is_dir) = if not is_dir then none else elim (parse_int name) [
    | none ↦ none
    | some pid ↦ elim (proc.cmdline pid) [
      | none ↦ none
      | some cmdline ↦ if contains cmdline "ckpool" then some pid else none
    ]
  ]

  unfoldable pub terminate : Int64 → Kill
  terminate pid = if proc.finds pid then signalled pid (proc.signals pid) else no_process pid

  -- the loop over the entries
  unfoldable pub kill_first : List (String × Bool) → Kill
  kill_first [] = not_running
  kill_first (e ∷ es) = elim (ckpool_pid e) [ none ↦ kill_first es | some pid ↦ terminate pid ]

  unfoldable pub kill_ckpool : Kill
  kill_ckpool = elim proc.entries [ none ↦ unreadable | some es ↦ kill_first es ]

  kill_first-append :
      (before es : List (String × Bool))
      → All (λ e. ckpool_pid e ≡ none) before
      → kill_first (before ++ es) ≡ kill_first es
  unfolding kill_first
  kill_first-append [] es h = refl
  kill_first-append (e ∷ before) es (h, hs) =
      ap (λ o. elim o [ none ↦ kill_first (before ++ es) | some pid ↦ terminate pid ]) h
      ∙ kill_first-append before es hs

  -- Of all processes only the first whose command line names ckpool is signalled, and none where
  -- there is no such process.
  pub kill_ckpool-first :
      (before after : List (String × Bool)) (e : String × Bool) (pid : Int64)
      → All (λ x. ckpool_pid x ≡ none) before
      → ckpool_pid e ≡ some pid
      → ((proc.entries ≡ some (before ++ e ∷ after)) → kill_ckpool ≡ terminate pid)
        × ((proc.entries ≡ some before) → kill_ckpool ≡ not_running)
  unfolding kill_ckpool kill_first
  kill_ckpool-first before after e pid none_before found = (
    λ h.
        ap (λ o. elim o [ none ↦ unreadable | some es ↦ kill_first es ]) h
        ∙ kill_first-append before (e ∷ after) none_before
        ∙ ap (λ o. elim o [ none ↦ kill_first after | some p ↦ terminate p ]) found,
    λ h.
        ap (λ o. elim o [ none ↦ unreadable | some es ↦ kill_first es ]) h
        ∙ ap kill_first (sym (append_nil before))
        ∙ kill_first-append before [] none_before,
  )
