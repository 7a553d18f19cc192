-- ===== src/Xv6/File/Tests.antt =====
-- Runs of the open files.
use os_codes.Common.{
  ℕ, ◌+◌, ◌≡◌, refl, true, false, none, some, ltb, ◌==◌, if◌then◌else◌, inl, inr, Bool-cases, arith,
}
use os_codes.Xv6.Pipe.{new_pipe}
use os_codes.Xv6.Fs.{Inode, Volume, put, ndirect}
use os_codes.Xv6.Fs.Ownership.{addr_of, IsValid}
use os_codes.Xv6.File.{System, fd_inode, returns, filedup}
use os_codes.Xv6.File.Write.{filewrite}
use os_codes.Xv6.File.Rounds.{Ready}
use os_codes.Xv6.File.Writing.{Stored, filewrite-Stored}

abbrev empty : Inode
empty = record { inum = 7; type = 2; nlink = 1; size = 0; addrs = λ i. 0 }

abbrev volume : Volume
volume = record { size = 20; used = λ b. ltb b 5; block = λ b i. 9; inodes = λ i. empty }

empty_nowhere : (i : ℕ) → addr_of empty volume i ≡ 0
unfolding addr_of
empty_nowhere i = elim (Bool-cases (ltb i ndirect)) [ inl low ↦ rw low | inr high ↦ rw high ]

empty-IsValid : IsValid empty volume
empty-IsValid = record {
  reserved = refl;
  small = omega arith;
  parts_used = λ i lt there_. absurd (there_ (empty_nowhere i));
  table_used = λ there_. absurd (there_ refl);
  distinct = λ i j lt_i lt_j differ there_. absurd (there_ (empty_nowhere i));
  apart = λ i lt there_. absurd (there_ (empty_nowhere i));
}

-- Open file 0 is an empty inode in the cache.
abbrev system : System
system = record {
  file = λ f. record {
    type = fd_inode;
    ref = if f == 0 then 1 else 0;
    readable = true;
    writable = true;
    pipe = 0;
    ip = 3;
    off = 0;
  };
  pipe = λ i. new_pipe (λ x. 0);
  cache = record {
    inode = λ i. record { dev = 1; ref = 1; lock = none; valid = true; node = empty };
    disk = λ d. volume;
  };
}

system-Ready : Ready 0 empty volume 0 system
system-Ready = record {
  open_ = refl;
  counted = omega arith;
  read = refl;
  is = refl;
  on = refl;
  at = refl;
}

abbrev letters : ℕ → ℕ
letters z = z + 65

filewrite-Stored_example :
    (t : System) × (filewrite false 1 0 letters 5 system ≡ returns 5 t)
    × Stored 0 letters empty volume 0 5 system t
filewrite-Stored_example =
    filewrite-Stored false 1 0 letters 5 empty volume 0 system refl refl system-Ready empty-IsValid
      (omega arith) (omega arith) (omega arith) (omega arith) (omega arith)

abbrev copied : System
copied = record system { file = put system.file 0 (record (system.file 0) { ref = 2 }) }

filedup-system : filedup 0 system ≡ some copied
unfolding filedup
filedup-system = refl
