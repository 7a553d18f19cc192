-- ===== src/Xv6/Proc.antt =====
-- xv6-public/proc.c, and the calls of sysproc.c on it: the process table. A process is named by its
-- place in the table; a null `struct proc *` is `none`. The code runs under `ptable.lock`, so that each
-- function is one step. The contents of stacks and page tables are not modelled, only their addresses.
pub mod Life
pub mod Sched
pub mod Calls
pub mod Table
pub mod Cpus
pub mod Running
pub mod Priority
pub mod Waiting
mod Tests
use os_codes.Common.{
  ℕ, zero, suc, ◌+◌, ◌-◌, ◌*◌, ◌/◌, Bool, true, false, not, ◌&&◌, ◌||◌, Option, none, some, List,
  [], ◌∷◌, map, length, if◌then◌else◌, ltb, leb, ◌==◌, ℤ, pos, negsuc, ◌-ℤ◌, ltb_ℤ, get_elem?,
}

-- `enum procstate`
pub data ProcState : Type 0 where
  unused : ProcState
  embryo : ProcState
  sleeping : ProcState
  runnable : ProcState
  running : ProcState
  zombie : ProcState

-- What a process sleeps on: nothing, a process, or another address.
pub data Chan : Type 0 where
  no_chan : Chan
  proc_chan : ℕ → Chan
  other_chan : ℕ → Chan

-- The fields of `struct proc` that these functions use.
pub record Proc : Type 0 where
  pub sz : ℕ
  pub pgdir : ℕ
  pub kstack : ℕ
  pub state : ProcState
  pub pid : ℕ
  pub parent : Option ℕ
  pub tf : ℕ
  pub context : ℕ
  pub chan : Chan
  pub killed : Bool
  pub name : List ℕ
  pub inctxt : ℕ
  pub prio : ℤ
  pub welcome_addr : ℕ
  pub return_addr : ℕ
  pub eip : ℕ

-- `ptable`, `initproc`, `nextpid` and `prio_check`.
pub record Kernel : Type 0 where
  pub procs : List Proc
  pub initproc : ℕ
  pub nextpid : ℕ
  pub prio_check : ℤ

abbrev pub has_state : ProcState → ProcState → Bool
has_state unused unused = true
has_state embryo embryo = true
has_state sleeping sleeping = true
has_state runnable runnable = true
has_state running running = true
has_state zombie zombie = true
has_state _ _ = false

abbrev pub same_chan : Chan → Chan → Bool
same_chan no_chan no_chan = true
same_chan (proc_chan i) (proc_chan j) = i == j
same_chan (other_chan a) (other_chan b) = a == b
same_chan _ _ = false

-- An assignment through `p = &ptable.proc[i]`.
abbrev pub at_slot : List Proc → ℕ → (Proc → Proc) → List Proc
at_slot [] i f = []
at_slot (p ∷ ps) zero f = f p ∷ ps
at_slot (p ∷ ps) (suc i) f = p ∷ at_slot ps i f

-- The loop of `allocproc`.
abbrev pub find_unused : List Proc → Option ℕ
find_unused [] = none
find_unused (p ∷ ps) =
    let rest = find_unused ps in
    if has_state p.state unused then some 0 else elim rest [ none ↦ none | some i ↦ some (suc i) ]

-- The sizes of `struct trapframe` and `struct context`: 19 and 5 words.
abbrev pub place_stack : ℕ → Proc → Proc
place_stack kstack p = record p {
  kstack = kstack;
  tf = kstack + 4096 - 76;
  context = kstack + 4096 - 76 - 4 - 20;
}

-- What `allocproc` writes at `found`, with `kstack` from `kalloc`.
abbrev pub new_proc : ℕ → ℕ → Proc → Proc
new_proc pid kstack p =
    let q : Proc = record p {
      state = embryo;
      pid = pid;
      inctxt = 0;
      prio = pos 500;
      welcome_addr = 0;
      return_addr = 0;
    } in
    if kstack == 0 then record q { kstack = 0; state = unused } else place_stack kstack q

abbrev pub alloc_at : ℕ → ℕ → Kernel → Option ℕ × Kernel
alloc_at kstack i s = (
  if kstack == 0 then none else some i,
  record s { procs = at_slot s.procs i (new_proc s.nextpid kstack); nextpid = s.nextpid + 1 },
)

pub allocproc : ℕ → Kernel → Option ℕ × Kernel
allocproc kstack s = elim (find_unused s.procs) [ none ↦ (none, s) | some i ↦ alloc_at kstack i s ]

-- `wakeup1`
abbrev pub wake : Chan → Proc → Proc
wake chan p =
    if has_state p.state sleeping && same_chan p.chan chan then record p { state = runnable } else p

pub wakeup : Chan → List Proc → List Proc
wakeup chan [] = []
wakeup chan (p ∷ ps) = wake chan p ∷ wakeup chan ps

-- What `kill` does to the process it finds.
abbrev pub mark_killed : Proc → Proc
mark_killed p = record p {
  killed = true;
  state = if has_state p.state sleeping then runnable else p.state;
}

pub kill : ℕ → List Proc → ℤ × List Proc
kill pid [] = (negsuc 0, [])
kill pid (p ∷ ps) =
    let rest = kill pid ps in
    if p.pid == pid then (pos 0, mark_killed p ∷ ps) else (rest.0, p ∷ rest.1)

abbrev pub is_child : ℕ → Proc → Bool
is_child cur p = elim p.parent [ none ↦ false | some i ↦ i == cur ]

-- One round of the loop of `exit`, at the process `i`.
abbrev pub adopt : ℕ → ℕ → ℕ → List Proc → List Proc
unfolding wakeup
adopt cur init i ps = elim (get_elem? ps i) [
  | none ↦ ps
  | some p ↦
      let qs = at_slot ps i (λ (q : Proc). record q { parent = some init }) in
      if is_child cur p
      then (if has_state p.state zombie then wakeup (proc_chan init) qs else qs)
      else ps
]

-- The rest of that loop, with `k` rounds to go.
abbrev pub adopt_from : ℕ → ℕ → ℕ → ℕ → List Proc → List Proc
adopt_from cur init zero i ps = ps
adopt_from cur init (suc k) i ps = adopt_from cur init k (i + 1) (adopt cur init i ps)

abbrev pub parent_chan : List Proc → ℕ → Chan
parent_chan ps cur = elim (get_elem? ps cur) [
  | none ↦ no_chan
  | some p ↦ elim p.parent [ none ↦ no_chan | some i ↦ proc_chan i ]
]
