-- ===== src/Identity/ApiKeys/Tests.antt =====
-- Keys at a small database: the primary key of ann, and a key of hers that bob made in org "o".
use agent_fs.Prelude.{arith, ◌≡◌, refl, false, none, some, [], ◌∷◌, Text, text, ◌===◌, starts_with}
use agent_fs.Errors.{Result, ok, err, not_found, validation}
use agent_fs.Identity.ApiKeys.{
  KeyRow, KeyDb, Fresh, primary_api_key_id, parse_api_key_label, get_user_by_api_key,
  create_user_api_key, reset_org_scoped_key, revoke_granted, reset_api_key_orgless, reset_api_key,
  revoke_user_api_key,
}
use agent_fs.Identity.ApiKeys.Revoked.{
  start, then_change, created, self_reset_orgless, revoked_key_refused,
}

runs : Unit {0}
unfolding ◌===◌ starts_with parse_api_key_label get_user_by_api_key create_user_api_key
    reset_org_scoped_key revoke_granted reset_api_key_orgless reset_api_key revoke_user_api_key
runs = tt

abbrev digest : Text → Text
digest t = b'h' ∷ t

abbrev key_of_ann : KeyRow
key_of_ann = record {
  key = record {
    id = text "k1";
    user = text "ann";
    created_by = text "bob";
    org_id = some (text "o");
    revoked = false;
  };
  key_hash = text "hsecret";
  label = text "ci";
  last_used_at = some 1000;
}

abbrev keys : KeyDb
keys = record {
  users = record { id = text "ann"; email = text "a@x"; api_key_hash = text "hprimary" } ∷ [];
  keys = key_of_ann ∷ [];
}

abbrev or_keys : Result KeyDb → KeyDb
or_keys (ok db) = db
or_keys (err e) = keys

abbrev without_key : KeyDb
without_key = or_keys (revoke_user_api_key keys (text "ann") (text "k1") (text "u"))

abbrev without_primary : KeyDb
without_primary = or_keys (revoke_user_api_key keys (text "ann") primary_api_key_id (text "u"))

abbrev fresh : Fresh
fresh = record { id = text "k2"; key_hash = text "hother" }

abbrev later : KeyDb
later =
    or_keys
      (create_user_api_key without_key (text "ann") (some (text " ci ")) (text "ann") none fresh)

abbrev much_later : KeyDb
much_later = reset_api_key_orgless later (text "ann") (text "hnew")

api_key_tests :
    ((get_user_by_api_key digest keys (text "secret") 1059).0 ≡ keys)
    × ((get_user_by_api_key digest keys (text "secret") 1060).0
        ≡ record keys { keys = record key_of_ann { last_used_at = some 1060 } ∷ [] })
    × ((get_user_by_api_key digest keys (text "primary") 0).1
        ≡ some (record {
          id = text "ann";
          email = text "a@x";
          scope_org_id = none;
          key_id = primary_api_key_id;
        }))
    × ((get_user_by_api_key digest without_primary (text "primary") 0).1 ≡ none)
    × (revoke_user_api_key without_primary (text "ann") primary_api_key_id (text "v")
        ≡ err not_found)
    × (create_user_api_key keys (text "ann") none (text "ann") none fresh ≡ err validation)
    × ((get_user_by_api_key digest
          (reset_api_key_orgless keys (text "ann") (text "hnew"))
          (text "secret")
          0).1
        ≡ none)
unfolding runs
api_key_tests = (refl, refl, refl, refl, refl, refl, refl)

revoked_key_refused_example :
    get_user_by_api_key digest much_later (text "secret") 5000 ≡ (much_later, none)
unfolding runs
revoked_key_refused_example =
    revoked_key_refused digest keys without_key much_later (text "secret") (text "u") 1030 5000
      (record {
        id = text "ann";
        email = text "a@x";
        scope_org_id = some (text "o");
        key_id = text "k1";
      })
      (record {
        users = (refl, tt);
        keys = (refl, tt);
        apart = λ e. ground arith;
        ids = refl;
        hex = refl;
      })
      refl refl
      (then_change
        (then_change start
          (created (text "ann") (some (text " ci ")) (text "ann") none fresh later refl refl))
        (self_reset_orgless (text "ann") (text "hnew") refl))
