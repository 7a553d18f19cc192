-- ===== src/Xv6/Pipe/Tests.antt =====
-- Runs of a pipe.
use os_codes.Common.{false, arith}
use os_codes.Xv6.Pipe.{Pipe, new_pipe, piperead, put_byte}
use os_codes.Xv6.Pipe.Queue.{Inv}
use os_codes.Xv6.Pipe.Reading.{ReadSpec, piperead_takes}

abbrev fresh : Pipe
fresh = new_pipe (λ i. 7)

fresh-Inv : Inv fresh
fresh-Inv = record { nread_small = omega arith; nwrite_small = omega arith; fits = omega arith }

-- A pipe whose counters are about to wrap around, with one byte.
abbrev late : Pipe
late = put_byte 65 (record fresh { nread = 4294967295; nwrite = 4294967295 })

late-Inv : Inv late
late-Inv = record { nread_small = omega arith; nwrite_small = omega arith; fits = omega arith }

piperead_takes_example : ReadSpec false 4 late (piperead false 4 late)
piperead_takes_example = piperead_takes false 4 late late-Inv
