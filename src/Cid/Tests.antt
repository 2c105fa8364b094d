-- ===== src/Cid/Tests.antt =====
-- pinner.go: the CID check on concrete texts, and its theorems there.
use pevo_pinner.Prelude.{◌≡◌, refl, ◌↔◌, true, false, [], ◌++◌}
use pevo_pinner.Prelude.Text.{Text, codes}
use pevo_pinner.Cid.{validate_cid}
use pevo_pinner.Cid.Shape.{IsCid, validate_cid_iff}

abbrev v0 : Text
v0 = codes "QmYwAPJzv5CZsnA625s3Xf2nemtYgPpHdWEz79ojWP5sh5"

abbrev v1 : Text
v1 = codes "bafybeigdyrzt5sfp7udm7hu76uh7y26nf3efuylqabf3oclgtqy55fbzdi"

accepted :
    (validate_cid v0 ≡ true)
    × (validate_cid v1 ≡ true)
    × (validate_cid (v0 ++ codes "/") ≡ false)
    × (validate_cid [] ≡ false)
    × (validate_cid (codes "../" ++ v1) ≡ false)
unfolding validate_cid
accepted = (refl, refl, refl, refl, refl)

validate_cid_iff_example : (validate_cid v0 ≡ true) ↔ IsCid v0
validate_cid_iff_example = validate_cid_iff v0
