-- ===== src/Sftp/RoundTrip.antt =====
-- Attributes are read back as they were written.
use mshell.Prelude.{
  ℕ, ◌/◌, ◌%◌, ◌^◌, ◌<◌, ◌≡◌, refl, sym, ap, subst, false, some, [], ◌++◌, if◌then◌else◌, arith,
  Bytes, length, ne→==,
}
use mshell.Wire.{htonu32, store_u64}
use mshell.StringBuf.{StringBuf, pure, get_u32, get_u64}
use mshell.StringBuf.Reads.{
  Reads, pure-Reads, Reads-bind, Reads-bind_nil, if-Reads, get_u32-Reads, get_u64-Reads,
}
use mshell.Sftp.{
  Attributes, has, word, sftp_attrsize, sftp_attr2bin, sftp_bin2attr, two_words, extensions,
}

word-Reads : (n : ℕ) → n < 2 ^ 32 → Reads get_u32 (word n) n
word-Reads n h =
    subst (λ k. Reads get_u32 (htonu32 k) n) {x = n} (omega (arith, h)) (get_u32-Reads n h)

two_words-Reads : (m n : ℕ) → m < 2 ^ 32 → n < 2 ^ 32 → Reads two_words (word m ++ word n) (m, n)
two_words-Reads m n hm hn =
    Reads-bind get_u32 _ (word m) (word n) m (m, n) (word-Reads m hm)
      (Reads-bind_nil get_u32 _ (word n) n (m, n) (word-Reads n hn) (pure-Reads (m, n)))

-- Every value fits the wire, and the flags are those that can be written.
pub record Fits (a : Attributes) : Type 0 where
  pub flags : a.flags < 16
  pub filesize : a.filesize < 2 ^ 64
  pub uid : a.uid < 2 ^ 32
  pub gid : a.gid < 2 ^ 32
  pub permissions : a.permissions < 2 ^ 32
  pub atime : a.atime < 2 ^ 32
  pub mtime : a.mtime < 2 ^ 32

not_extended : (f : ℕ) → f < 16 → Reads (if has f 31 then extensions else pure 0) [] 0
not_extended f h =
    subst (λ t. Reads (if t then extensions else pure 0) [] 0) {x = false}
      (sym (ne→== (f / 2 ^ 31 % 2) 1 (omega (arith, h)))) (pure-Reads 0)

-- The fields that the flags name come from `a`, the others stay.
abbrev pub merged : Attributes → Attributes → Attributes
merged old a =
    let given_owner : ℕ × ℕ = (a.uid, a.gid) in
    let old_owner : ℕ × ℕ = (old.uid, old.gid) in
    let given_times : ℕ × ℕ = (a.atime, a.mtime) in
    let old_times : ℕ × ℕ = (old.atime, old.mtime) in
    let owner = if has a.flags 1 then given_owner else old_owner in
    let times = if has a.flags 3 then given_times else old_times in
    record {
      flags = a.flags;
      filesize = if has a.flags 0 then a.filesize else old.filesize;
      uid = owner.0;
      gid = owner.1;
      permissions = if has a.flags 2 then a.permissions else old.permissions;
      atime = times.0;
      mtime = times.1;
    }

sftp_attr2bin-Reads :
    (old a : Attributes)
    → Fits a
    → Reads (sftp_bin2attr old) (sftp_attr2bin (some a)) (merged old a)
unfolding sftp_bin2attr sftp_attr2bin
sftp_attr2bin-Reads old a h =
    let f = a.flags in
    let size_bytes : Bytes = if has f 0 then store_u64 [] a.filesize else [] in
    let owner_bytes : Bytes = if has f 1 then word a.uid ++ word a.gid else [] in
    let permission_bytes : Bytes = if has f 2 then word a.permissions else [] in
    let times_bytes : Bytes = if has f 3 then word a.atime ++ word a.mtime else [] in
    Reads-bind get_u32 _ (word (f % 16))
      (size_bytes ++ (owner_bytes ++ (permission_bytes ++ times_bytes))) f _
      (subst (λ k. Reads get_u32 (word k) f) {x = f} (omega (arith, h.flags))
        (word-Reads f (omega (arith, h.flags))))
      (Reads-bind (if has f 0 then get_u64 else pure old.filesize) _ size_bytes _ _ _
        (if-Reads (has f 0) get_u64 _ a.filesize old.filesize (get_u64-Reads a.filesize h.filesize))
        (Reads-bind (if has f 1 then two_words else pure (old.uid, old.gid)) _ owner_bytes _ _ _
          (if-Reads (has f 1) two_words _ _ (old.uid, old.gid)
            (two_words-Reads a.uid a.gid h.uid h.gid))
          (Reads-bind (if has f 2 then get_u32 else pure old.permissions) _ permission_bytes _ _ _
            (if-Reads (has f 2) get_u32 _ a.permissions old.permissions
              (word-Reads a.permissions h.permissions))
            (Reads-bind_nil (if has f 3 then two_words else pure (old.atime, old.mtime)) _
              times_bytes _ _
              (if-Reads (has f 3) two_words _ _ (old.atime, old.mtime)
                (two_words-Reads a.atime a.mtime h.atime h.mtime))
              (Reads-bind_nil (if has f 31 then extensions else pure 0) _ [] 0 _
                (not_extended f h.flags) (pure-Reads (merged old a)))))))

-- The size that is reserved is the size that is written, whatever the attributes.
pub sftp_attr2bin-length :
    (a : Attributes) → length (sftp_attr2bin (some a)) ≡ sftp_attrsize a.flags
unfolding sftp_attr2bin sftp_attrsize htonu32 store_u64
sftp_attr2bin-length a = ground arith

-- A packet's bytes from `pos` on, as `sftp_bin2attr` gets them.
abbrev pub buffer : Bytes → StringBuf
buffer p = record { bytes = p; len = length p; pos = 0 }

-- Attributes that fit the wire are read back in the fields that their flags name, whatever follows
-- them, and the result is the number of bytes that were written; the other fields stay.
pub sftp_bin2attr-sftp_attr2bin :
    (old a : Attributes) (rest : Bytes)
    → Fits a
    → length (sftp_attr2bin (some a) ++ rest) < 2 ^ 64
    → let out = sftp_bin2attr old (buffer (sftp_attr2bin (some a) ++ rest)) in
      (out.0 ≡ some (merged old a)) × (out.1.pos ≡ sftp_attrsize a.flags)
sftp_bin2attr-sftp_attr2bin old a rest h fits =
    let p = sftp_attr2bin (some a) ++ rest in
    let e =
      sftp_attr2bin-Reads old a h (buffer p) rest
        (record { whole = refl; within = omega arith; addressable = fits }) refl in
    (ap (λ r. r.0) e, omega (arith, ap (λ r. r.1.pos) e, sftp_attr2bin-length a))
