-- ===== src/Xv6/Proc/Calls.antt =====
-- xv6-public/proc.c and sysproc.c: the calls that read the table or set fields of a process.
use os_codes.Common.{
  ℕ, suc, not, ◌&&◌, Option, none, some, List, [], ◌∷◌, if◌then◌else◌, ltb, ◌==◌, ℤ, pos, negsuc,
  get_elem?,
}
use os_codes.Xv6.Proc.{unused, Proc, Kernel, has_state, at_slot}

-- `getNum`
pub get_num : List Proc → ℕ
get_num [] = 0
get_num (p ∷ ps) = if has_state p.state unused then get_num ps else suc (get_num ps)

-- The loop of `MaxPid`, with the greatest pid so far.
pub max_pid_from : ℕ → List Proc → ℕ
max_pid_from best [] = best
max_pid_from best (p ∷ ps) = max_pid_from (if ltb best p.pid then p.pid else best) ps

pub max_pid : List Proc → ℕ
unfolding max_pid_from
max_pid ps = max_pid_from 0 ps

-- `struct processInfo`
pub record ProcessInfo : Type 0 where
  pub ppid : ℕ
  pub psize : ℕ
  pub number_context_switches : ℕ

-- What `ProcInfo` writes for the process `p`; `none` is the use of a null parent.
abbrev pub info_of : ℕ → List Proc → Proc → Option ProcessInfo
info_of pid table p =
    let info : ℕ → ProcessInfo =
      λ ppid. record { ppid = ppid; psize = p.sz; number_context_switches = p.inctxt } in
    if pid == 1 then some (info 0) else elim p.parent [
      | none ↦ none
      | some i ↦ elim (get_elem? table i) [ none ↦ none | some q ↦ some (info q.pid) ]
    ]

-- The loop of `ProcInfo` over the rest `ps` of `table`: -1 is `some none`.
pub proc_info : ℕ → List Proc → List Proc → Option (Option ProcessInfo)
proc_info pid table [] = some none
proc_info pid table (p ∷ ps) =
    let rest = proc_info pid table ps in
    if p.pid == pid && not (has_state p.state unused)
    then elim (info_of pid table p) [ none ↦ none | some info ↦ some (some info) ]
    else rest

-- `sys_setprio` and `sys_welcomeFunction`, with the argument that `argint` gives.
abbrev pub set_prio : ℕ → ℤ → Kernel → Kernel
set_prio cur n s = record s { procs = at_slot s.procs cur (λ (p : Proc). record p { prio = n }) }

abbrev pub welcome_function : ℕ → ℕ → Kernel → Kernel
welcome_function cur a s = record s {
  procs = at_slot s.procs cur (λ (p : Proc). record p { welcome_addr = a });
}

-- `sys_welcomeDone`
abbrev pub welcome_done : Proc → ℤ × Proc
welcome_done p =
    if p.return_addr == 0 then (negsuc 0, p) else (pos 0, record p { eip = p.return_addr })
