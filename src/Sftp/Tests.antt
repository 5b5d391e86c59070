-- ===== src/Sftp/Tests.antt =====
-- Attributes with a size and an owner, and the theorem on them.
use mshell.Prelude.{◌^◌, ◌<◌, ◌≡◌, refl, some, [], ◌∷◌, ◌++◌, arith, length}
use mshell.Wire.{htonu32, store_u64}
use mshell.Sftp.{Attributes, sftp_attrsize, sftp_attr2bin, sftp_bin2attr}
use mshell.Sftp.RoundTrip.{Fits, merged, buffer, sftp_bin2attr-sftp_attr2bin}

abbrev nothing : Attributes
nothing = record {
  flags = 0;
  filesize = 0;
  uid = 0;
  gid = 0;
  permissions = 0;
  atime = 0;
  mtime = 0;
}

abbrev sized : Attributes
sized = record nothing { flags = 3; filesize = 5000000000; uid = 1000; gid = 100 }

bytes_of_sized :
    sftp_attr2bin (some sized)
    ≡ 0 ∷ 0 ∷ 0 ∷ 3 ∷ 0 ∷ 0 ∷ 0 ∷ 1 ∷ 42 ∷ 5 ∷ 242 ∷ 0 ∷ 0 ∷ 0 ∷ 3 ∷ 232 ∷ 0 ∷ 0 ∷ 0 ∷ 100 ∷ []
unfolding sftp_attr2bin htonu32 store_u64
bytes_of_sized = refl

sized-Fits : Fits sized
sized-Fits = record {
  flags = omega arith;
  filesize = omega arith;
  uid = omega arith;
  gid = omega arith;
  permissions = omega arith;
  atime = omega arith;
  mtime = omega arith;
}

sized_short : length (sftp_attr2bin (some sized) ++ (7 ∷ [])) < 2 ^ 64
unfolding sftp_attr2bin htonu32 store_u64
sized_short = omega arith

sftp_bin2attr-sftp_attr2bin_example :
    let out = sftp_bin2attr nothing (buffer (sftp_attr2bin (some sized) ++ (7 ∷ []))) in
    (out.0 ≡ some (merged nothing sized)) × (out.1.pos ≡ sftp_attrsize sized.flags)
sftp_bin2attr-sftp_attr2bin_example =
    sftp_bin2attr-sftp_attr2bin nothing sized (7 ∷ []) sized-Fits sized_short
