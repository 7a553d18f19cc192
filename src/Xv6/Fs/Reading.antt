-- ===== src/Xv6/Fs/Reading.antt =====
-- `readi` on bytes for which the file has blocks.
use os_codes.Common.{
  ℕ, zero, suc, ◌+◌, ◌-◌, ◌/◌, ◌%◌, ◌≤◌, ◌<◌, ◌≡◌, ◌≢◌, refl, sym, ap, ◌∙◌, subst, false, ◌&&◌,
  some, ◌>>=◌, ltb, leb, ◌==◌, if◌then◌else◌, arith, dec_lt, inl, inr, Bool-cases,
}
use os_codes.Xv6.Fs.{
  Inode, Volume, bsize, ndirect, max_file, copy, chunk, bmap, slot, entry, read_from, get_word,
}
use os_codes.Xv6.Fs.Ownership.{addr_of, byte_at_some}
use os_codes.Xv6.Fs.Bmap.{addr_direct, addr_table, table_none, table_some}
use os_codes.Xv6.Fs.Parts.{bmap_low, bmap_high}
use os_codes.Xv6.Fs.Content.{max_bytes, content}
use os_codes.Xv6.Fs.Rounds.{chunk_bounds}

slot_kept :
    (ip : Inode) (v : Volume) (bn : ℕ) → ip.addrs bn ≢ 0 → slot ip bn v ≡ some (ip.addrs bn, ip, v)
unfolding slot
slot_kept ip v bn there_ = let miss : (ip.addrs bn == 0) ≡ false = ground arith in rw miss

entry_kept :
    (ip : Inode) (v : Volume) (a k : ℕ)
    → get_word (v.block a) k ≢ 0
    → entry a k ip v ≡ some (get_word (v.block a) k, ip, v)
unfolding entry
entry_kept ip v a k there_ =
    let miss : (get_word (v.block a) k == 0) ≡ false = ground arith in rw miss

pub bmap_kept :
    (ip : Inode) (v : Volume) (bn : ℕ)
    → bn < max_file
    → addr_of ip v bn ≢ 0
    → bmap ip bn v ≡ some (addr_of ip v bn, ip, v)
bmap_kept ip v bn lt there_ = elim (dec_lt bn ndirect) [
  | yes low ↦
      let same = addr_direct ip v bn low in
      bmap_low ip bn v low
      ∙ slot_kept ip v bn (λ e. there_ (same ∙ e))
      ∙ ap (λ (x : ℕ). some (x, ip, v)) (sym same)
  | no high ↦
      let k : ℕ = bn - ndirect in
      let in_table = addr_table ip v bn (omega arith) in
      let has_table : ip.addrs ndirect ≢ 0 =
        λ e. there_ (in_table ∙ table_none ip v (bn - ndirect) e) in
      let is_entry = table_some ip v (bn - ndirect) (ip.addrs ndirect) refl has_table in
      bmap_high ip bn v (omega arith) lt
      ∙ ap (λ r. r >>= λ (a, jp, w). entry a (bn - ndirect) jp w) (slot_kept ip v ndirect has_table)
      ∙ entry_kept ip v (ip.addrs ndirect) (bn - ndirect) (λ e. there_ (in_table ∙ is_entry ∙ e))
      ∙ ap (λ (x : ℕ). some (x, ip, v)) (sym is_entry ∙ sym in_table)
]

-- `d` is `dst` with `len` bytes of the file from `off` on at `tot`.
abbrev pub Holds : Inode → Volume → ℕ → ℕ → ℕ → (ℕ → ℕ) → (ℕ → ℕ) → Type 0
Holds ip v off tot len dst d =
    (z : ℕ)
    → d z ≡ (if leb tot z && ltb z (tot + len) then content ip v (off + (z - tot)) else dst z)

copy-Holds :
    (ip : Inode) (v : Volume) (off tot m : ℕ) (dst : ℕ → ℕ)
    → addr_of ip v (off / bsize) ≢ 0
    → off % bsize + m ≤ bsize
    → Holds ip v off tot m dst (copy (v.block (addr_of ip v (off / bsize))) (off % bsize) dst tot m)
unfolding content
copy-Holds ip v off tot m dst there_ fits z = elim (Bool-cases (leb tot z && ltb z (tot + m))) [
  | inr outside ↦ rw outside
  | inl inside ↦
      let part : (off + (z - tot)) / bsize ≡ off / bsize = ground (arith, inside) in
      let place : off % bsize + (z - tot) ≡ (off + (z - tot)) % bsize = ground (arith, inside) in
      rw inside (
        ap (v.block (addr_of ip v (off / bsize))) place
        ∙ sym (
            byte_at_some ip v ((off + (z - tot)) / bsize) ((off + (z - tot)) % bsize)
              (addr_of ip v (off / bsize)) (ap (addr_of ip v) part) there_))
]

Holds-trans :
    (ip : Inode) (v : Volume) (off tot m n : ℕ) (dst d e : ℕ → ℕ)
    → Holds ip v off tot m dst d
    → Holds ip v (off + m) (tot + m) n d e
    → Holds ip v off tot (m + n) dst e
Holds-trans ip v off tot m n dst d e first second z = elim (dec_lt z (tot + m)) [
  | yes low ↦
      let test : (leb (tot + m) z && ltb z (tot + m + n)) ≡ false = ground arith in
      let same : ltb z (tot + (m + n)) ≡ ltb z (tot + m) = ground arith in
      rw same ((rw test at (second z)) ∙ first z)
  | no high ↦
      let test : (leb tot z && ltb z (tot + m)) ≡ false = ground arith in
      let old : d z ≡ dst z = rw test at (first z) in
      let same : (leb (tot + m) z && ltb z (tot + m + n)) ≡ (leb tot z && ltb z (tot + (m + n))) =
        ground arith in
      let place : off + m + (z - (tot + m)) ≡ off + (z - tot) = omega arith in
      rw (same, place, old) at (second z)
]

read_done :
    (fuel : ℕ) (ip : Inode) (v : Volume) (off tot : ℕ) (dst : ℕ → ℕ)
    → read_from fuel ip v off tot 0 dst ≡ some (ip, v, dst)
unfolding read_from
read_done zero ip v off tot dst = refl
read_done (suc fuel) ip v off tot dst = refl

read_round :
    (fuel : ℕ) (ip : Inode) (v : Volume) (off tot left : ℕ) (dst : ℕ → ℕ)
    → off / bsize < max_file
    → addr_of ip v (off / bsize) ≢ 0
    → read_from (suc fuel) ip v off tot (suc left) dst
      ≡ read_from fuel ip v
          (off + chunk (suc left) off)
          (tot + chunk (suc left) off)
          (suc left - chunk (suc left) off)
          (copy (v.block (addr_of ip v (off / bsize))) (off % bsize) dst tot (chunk (suc left) off))
unfolding read_from
read_round fuel ip v off tot left dst lt there_ = rw (bmap_kept ip v (off / bsize) lt there_)

-- With at least as many rounds as bytes, the loop of `readi` reads them all.
pub read_from-Holds :
    (fuel : ℕ) (ip : Inode) (v : Volume) (off tot left : ℕ) (dst : ℕ → ℕ)
    → left ≤ fuel
    → off + left ≤ max_bytes
    → ((x : ℕ) → off ≤ x → x < off + left → addr_of ip v (x / bsize) ≢ 0)
    → (d : ℕ → ℕ) × (read_from fuel ip v off tot left dst ≡ some (ip, v, d))
      × Holds ip v off tot left dst d
read_from-Holds fuel ip v off tot zero dst enough room mapped = (
  dst,
  read_done fuel ip v off tot dst,
  λ z. let out : (leb tot z && ltb z (tot + 0)) ≡ false = ground arith in rw out,
)
read_from-Holds zero ip v off tot (suc left) dst enough room mapped = absurd (omega arith)
read_from-Holds (suc fuel) ip v off tot (suc left) dst enough room mapped =
    let (progress, le, fits) = chunk_bounds (suc left) off (omega arith) in
    let m : ℕ = chunk (suc left) off in
    let there_ = mapped off (omega arith) (omega arith) in
    let round : ℕ → ℕ = copy (v.block (addr_of ip v (off / bsize))) (off % bsize) dst tot m in
    let (d, result, holds) =
      read_from-Holds fuel ip v (off + m) (tot + m) (suc left - m) round
        (omega (arith, progress, le)) (omega (arith, progress, le))
        (λ x le_x lt_x. mapped x (omega (arith, progress, le)) (omega (arith, progress, le))) in
    let whole : m + (suc left - m) ≡ suc left = omega (arith, le) in
    (
      d,
      read_round fuel ip v off tot left dst (omega arith) there_ ∙ result,
      subst (λ n. Holds ip v off tot n dst d) whole
          (Holds-trans ip v off tot m (suc left - m) dst round d
            (copy-Holds ip v off tot m dst there_ fits) holds),
    )
