-- ===== src/Guard/Tests.antt =====
-- Runs of guard.go and the witness of its theorem.
use master_data.Shared.{
  ◌≡◌, refl, inr, true, some, arith, nat_eq, text_eq, contains, Text, codes, text_beq, is_space,
  to_lower_byte, to_lower, trim_space,
}
use master_data.Shared.{cut_prefix}
use master_data.Guard.{
  Refusal, legacy_path, guard_target, database_from_uri, legacy_databases, contains_text, cut_text,
  equal_fold,
}
use master_data.Guard.Refusals.{old_path, uri_of, guard_target_refuses}

abbrev old_uri : Text
old_uri = uri_of (codes "mongodb") (codes "db1:27017") (codes "PROD") (codes "?w=1")

refused_by_path : guard_target old_uri (codes "new") ≡ some legacy_path
unfolding guard_target text_beq to_lower to_lower_byte trim_space is_space database_from_uri
    contains_text cut_text equal_fold cut_prefix
refused_by_path = refl

old_name_found : contains legacy_databases (to_lower (codes "PROD")) ≡ true
unfolding to_lower to_lower_byte text_beq
old_name_found = refl

guard_target_refuses_example : (r : Refusal) × (guard_target old_uri (codes "new") ≡ some r)
guard_target_refuses_example = guard_target_refuses old_uri (codes "new") (
    old_path (codes "mongodb") (codes "db1:27017") (codes "PROD") (codes "?w=1") old_uri
      (codes "new") refl (omega arith) (omega arith) (omega arith) (inr (codes "w=1", refl))
      old_name_found)
