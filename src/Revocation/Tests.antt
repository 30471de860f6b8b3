-- ===== src/Revocation/Tests.antt =====
-- Runs of revocation.go and the witnesses of its theorems.
use master_data.Shared.{
  ◌≡◌, refl, true, false, [], ◌∷◌, arith, nat_eq, text_eq, exists, codes, text_beq, lookup, insert,
}
use master_data.Revocation.{
  session, user, Event, Revocations, new_list, revoked, apply_all, apply, replace, prune,
}
use master_data.Revocation.History.{ends, revoked-replace}
use master_data.Revocation.Pruning.{IsValid, revoked-prune, apply_all-IsValid}

abbrev suspension : Event
suspension = record { kind = user; id = codes "u1"; at = 50 }

abbrev earlier_suspension : Event
earlier_suspension = record { kind = user; id = codes "u1"; at = 40 }

abbrev logout : Event
logout = record { kind = session; id = codes "s1"; at = 60 }

-- The earlier cut-off does not narrow the later one.
later_cutoff_wins :
    revoked
      (apply_all new_list (suspension ∷ earlier_suspension ∷ []))
      (codes "s9")
      (codes "u1")
      []
      45
    ≡ true
unfolding revoked apply_all apply new_list text_beq lookup insert
later_cutoff_wins = refl

signing_in_again :
    revoked (apply_all new_list (suspension ∷ [])) (codes "s9") (codes "u1") [] 55 ≡ false
unfolding revoked apply_all apply new_list text_beq lookup insert
signing_in_again = refl

revoked-replace_example :
    revoked (apply_all (replace new_list (suspension ∷ [])) (logout ∷ [])) (codes "s1") [] [] 7
    ≡ exists (ends (codes "s1") [] [] 7) (suspension ∷ logout ∷ [])
revoked-replace_example =
    revoked-replace new_list (suspension ∷ []) (logout ∷ []) (codes "s1") [] [] 7

busy : Revocations
unfolding new_list apply_all
busy = apply_all new_list (suspension ∷ logout ∷ [])

new_list-IsValid : IsValid new_list
unfolding new_list
new_list-IsValid = record { sessions_distinct = tt; users_distinct = tt; companies_distinct = tt }

revoked-prune_example :
    IsValid (prune 100 60 busy)
    × (revoked (prune 100 60 busy) (codes "s1") (codes "u1") [] 45
        ≡ revoked busy (codes "s1") (codes "u1") [] 45)
unfolding busy new_list apply_all apply text_beq lookup insert
revoked-prune_example =
    revoked-prune 100 60 busy (codes "s1") (codes "u1") [] 45
      (apply_all-IsValid new_list (suspension ∷ logout ∷ []) new_list-IsValid) (omega arith)
      (omega arith)
