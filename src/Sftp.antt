-- ===== src/Sftp.antt =====
-- sftp.c, the attributes of a file: their size on the wire, writing and reading them.
pub mod RoundTrip
mod Tests
use mshell.Prelude.{
  ℕ, zero, suc, ◌+◌, ◌/◌, ◌%◌, ◌^◌, Bool, true, false, Option, none, some, List, [], ◌∷◌, ◌++◌,
  ◌==◌, if◌then◌else◌, Bytes, length,
}
use mshell.Wire.{htonu32, store_u32, store_u64}
use mshell.StringBuf.{StringBuf, Reader, ◌>>=◌, ◌>>◌, pure, get_u32, get_u64, get_string}

-- `LIBSSH2_SFTP_ATTRIBUTES`; an `unsigned long` is wider than the 32 bits of the wire.
pub record Attributes : Type 0 where
  pub flags : ℕ
  pub filesize : ℕ
  pub uid : ℕ
  pub gid : ℕ
  pub permissions : ℕ
  pub atime : ℕ
  pub mtime : ℕ

-- LIBSSH2_SFTP_ATTR_SIZE, _UIDGID, _PERMISSIONS, _ACMODTIME and _EXTENDED are the bits 0, 1, 2, 3
-- and 31.
abbrev pub has : ℕ → ℕ → Bool
has flags i = flags / 2 ^ i % 2 == 1

unfoldable pub sftp_attrsize : ℕ → ℕ
sftp_attrsize flags =
    4
    + (if has flags 0 then 8 else 0)
    + (if has flags 1 then 8 else 0)
    + (if has flags 2 then 4 else 0)
    + (if has flags 3 then 8 else 0)

-- The 32-bit words are cut on the way out. `none` stands for NULL.
abbrev pub word : ℕ → Bytes
word n = htonu32 (n % 2 ^ 32)

unfoldable pub sftp_attr2bin : Option Attributes → Bytes
sftp_attr2bin none = htonu32 0
sftp_attr2bin (some a) =
    word (a.flags % 16)
    ++ ((if has a.flags 0 then store_u64 [] a.filesize else [])
        ++ ((if has a.flags 1 then word a.uid ++ word a.gid else [])
            ++ ((if has a.flags 2 then word a.permissions else [])
                ++ (if has a.flags 3 then word a.atime ++ word a.mtime else []))))

-- The extensions are read past.
unfoldable pub skip_extended : ℕ → Reader ℕ
skip_extended zero = pure 0
skip_extended (suc n) = do etype ← get_string; edata ← get_string; skip_extended n

abbrev pub two_words : Reader (ℕ × ℕ)
two_words = do first ← get_u32; second ← get_u32; pure (first, second)

abbrev pub extensions : Reader ℕ
extensions = do extended_count ← get_u32; skip_extended extended_count

-- `-1` is LIBSSH2_ERROR_BUFFER_TOO_SMALL; what it leaves in `attrs` is not modelled. The result of
-- the C function, `dataptr - data`, is the buffer's position.
unfoldable pub sftp_bin2attr : Attributes → Reader Attributes
unfolding skip_extended
sftp_bin2attr attrs = do
  flags ← get_u32
  filesize ← if has flags 0 then get_u64 else pure attrs.filesize
  owner ← if has flags 1 then two_words else pure (attrs.uid, attrs.gid)
  permissions ← if has flags 2 then get_u32 else pure attrs.permissions
  times ← if has flags 3 then two_words else pure (attrs.atime, attrs.mtime)
  extended ← if has flags 31 then extensions else pure 0
  pure (record {
    flags = flags;
    filesize = filesize;
    uid = owner.0;
    gid = owner.1;
    permissions = permissions;
    atime = times.0;
    mtime = times.1;
  })
