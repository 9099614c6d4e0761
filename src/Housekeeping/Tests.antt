-- ===== src/Housekeeping/Tests.antt =====
-- Ticks of the deletes on small tables.
use hushvault.Base.{
  ℕ, zero, suc, ◌+◌, ◌≤◌, ◌≡◌, refl, min, Bool, true, false, not, Option, none, some, List, [], ◌∷◌,
  ◌++◌, map, Text, codes, same, less, has, starts_with, after, length, filter, All,
}
use hushvault.Plans.{entitlements_for_plan, plan_entitlements, tier_of, retention_cutoff}
use hushvault.Blobs.{
  digits, decimal, is_positive_decimal, number_from, number, secret_blob_key, split_from, split,
  parse_parts, parse_secret_blob_key, revisions, all_secret_blob_keys,
}
use hushvault.Housekeeping.{
  ShareLink, Organisation, AuditRow, purge, is_spent, purge_share_links, is_closed,
  purge_org_invites, is_dead, purge_auth_tokens, is_due, revert_comps, sweep_expired_comps,
  insert_by_id, order_by_id, swept_orgs, is_expired, sweep_until, plan_cutoff, sweep_orgs,
  sweep_audit_log, share_purge_per_tick, comp_expiry_per_tick,
}
use hushvault.Housekeeping.Orphans.{
  Page, Store, parsed_keys, distinct_from, pointer_of, read_pointers, page_pointers, is_covered,
  is_referenced, delete_chunks, delete_candidates, record_sighting, record_batch, record_sightings,
  insert_by_age, order_by_age, is_aged, aged, doomed_from, doomed_keys, prune_stale_candidates,
  referenced_keys, unreferenced_keys, seen_candidates, delete_chunk, delete_blobs, sweep_keys,
  sweep_page, finish_sweep, sweep_orphan_blobs, purge_chunks, purge_legacy_history_blobs,
  orphan_delete_per_tick,
}
use hushvault.Housekeeping.Purged.{
  IsReverted, is_comp_due, purge_share_links_lem, sweep_expired_comps_lem,
}
use hushvault.Housekeeping.Audit.{
  is_retained, KeepsForever, sweep_ticks, sweep_audit_log-is_retained, sweep_ticks_starved,
}
use hushvault.Housekeeping.Collected.{
  IsCollectable, sweep_orphan_blobs-IsCollectable, sweep_orphan_blobs-le,
}

abbrev two_links : List ShareLink
two_links =
    record { id = codes "l"; expires_at = 5; view_count = 0; max_views = 1 }
    ∷ record { id = codes "m"; expires_at = 50; view_count = 0; max_views = 1 }
    ∷ []

purge_share_links_lem_example :
    (filter (λ l. not (is_spent 9 l)) (purge_share_links 9 two_links).0
      ≡ filter (λ l. not (is_spent 9 l)) two_links)
    × ((purge_share_links 9 two_links).1
        ≡ min share_purge_per_tick (length (filter (is_spent 9) two_links)))
purge_share_links_lem_example = purge_share_links_lem 9 two_links

abbrev two_orgs : List Organisation
two_orgs =
    record { id = codes "b"; plan = codes "pro"; plan_expires_at = some 5 }
    ∷ record { id = codes "a"; plan = codes "enterprise"; plan_expires_at = none }
    ∷ []

sweep_expired_comps_lem_example :
    IsReverted 9 two_orgs (sweep_expired_comps 9 two_orgs).0
    × ((sweep_expired_comps 9 two_orgs).1
        ≡ min comp_expiry_per_tick (length (filter (is_comp_due 9) two_orgs)))
    × (length (filter (is_comp_due 9) (sweep_expired_comps 9 two_orgs).0)
          + (sweep_expired_comps 9 two_orgs).1
        ≡ length (filter (is_comp_due 9) two_orgs))
sweep_expired_comps_lem_example = sweep_expired_comps_lem 9 two_orgs

abbrev log : List AuditRow
log =
    record { id = codes "1"; org_id = codes "b"; timestamp = 5 }
    ∷ record { id = codes "2"; org_id = codes "a"; timestamp = 5 }
    ∷ []

-- Ninety days and a bit later, the first row of the log goes.
log_swept : (sweep_audit_log 7776000009 two_orgs log).1 ≡ 1
unfolding purge is_spent purge_share_links is_closed purge_org_invites is_dead purge_auth_tokens
    is_due revert_comps sweep_expired_comps insert_by_id order_by_id swept_orgs is_expired
    sweep_until plan_cutoff sweep_orgs sweep_audit_log entitlements_for_plan plan_entitlements
    tier_of retention_cutoff same less
log_swept = refl

sweep_audit_log-is_retained_example :
    filter (is_retained 7776000009 two_orgs) (sweep_audit_log 7776000009 two_orgs log).0
    ≡ filter (is_retained 7776000009 two_orgs) log
sweep_audit_log-is_retained_example = sweep_audit_log-is_retained 7776000009 two_orgs log

-- Twenty organisations that keep their logs, with a row each, and one behind them with an old row.
abbrev keeper_ids : ℕ → List ℕ
keeper_ids zero = []
keeper_ids (suc n) = (100 + n) ∷ keeper_ids n

abbrev many_orgs : List Organisation
many_orgs =
    record { id = codes "z" ++ codes "z"; plan = codes "free"; plan_expires_at = none }
    ∷ map (λ n. record { id = n ∷ []; plan = codes "enterprise"; plan_expires_at = none })
        (keeper_ids 20)

abbrev many_rows : List AuditRow
many_rows =
    record { id = codes "1"; org_id = codes "z" ++ codes "z"; timestamp = 5 }
    ∷ map (λ n. record { id = n ∷ []; org_id = n ∷ []; timestamp = 5 }) (keeper_ids 20)

keepers : All KeepsForever (swept_orgs many_orgs many_rows)
unfolding swept_orgs order_by_id insert_by_id entitlements_for_plan plan_entitlements tier_of same
    less
keepers = (
  refl,
  (
    refl,
    (
      refl,
      (
        refl,
        (
          refl,
          (
            refl,
            (
              refl,
              (
                refl,
                (
                  refl,
                  (
                    refl,
                    (
                      refl,
                      (refl, (refl, (refl, (refl, (refl, (refl, (refl, (refl, (refl, tt))))))))),
                    ),
                  ),
                ),
              ),
            ),
          ),
        ),
      ),
    ),
  ),
)

sweep_ticks_starved_example :
    sweep_ticks (9000000000 ∷ 9000060000 ∷ []) many_orgs many_rows ≡ many_rows
sweep_ticks_starved_example =
    sweep_ticks_starved (9000000000 ∷ 9000060000 ∷ []) many_orgs many_rows keepers

abbrev db : Store
db = record {
  secrets = record { id = codes "a"; blob_rev = 2 } ∷ [];
  candidates = record { kv_key = codes "secret:b"; first_seen_at = 5 } ∷ [];
  orphan_cursor = none;
  blobs = codes "secret:a" ∷ codes "secret:a:9" ∷ codes "secret:b" ∷ [];
}

abbrev list_blobs : Text → ℕ → Option Text → Page
list_blobs prefix limit cursor = record { keys = db.blobs; cursor = none }

abbrev works : Text → Bool
works key = true

b_gone :
    has (sweep_orphan_blobs list_blobs works false 3600005 db).0.blobs (codes "secret:b") ≡ false
unfolding parsed_keys distinct_from pointer_of read_pointers page_pointers is_covered is_referenced
    delete_chunks delete_candidates record_sighting record_batch record_sightings insert_by_age
    order_by_age is_aged aged doomed_from doomed_keys prune_stale_candidates referenced_keys
    unreferenced_keys seen_candidates delete_chunk delete_blobs sweep_keys sweep_page finish_sweep
    sweep_orphan_blobs purge_chunks purge_legacy_history_blobs digits decimal is_positive_decimal
    number_from number secret_blob_key split_from split parse_parts parse_secret_blob_key revisions
    all_secret_blob_keys purge same has starts_with after
b_gone = refl

b_was_there : has db.blobs (codes "secret:b") ≡ true
unfolding same has
b_was_there = refl

sweep_orphan_blobs-IsCollectable_example : IsCollectable 3600005 db (codes "secret:b")
sweep_orphan_blobs-IsCollectable_example =
    sweep_orphan_blobs-IsCollectable list_blobs works false 3600005 db (codes "secret:b")
      b_was_there b_gone

sweep_orphan_blobs-le_example :
    (sweep_orphan_blobs list_blobs works false 3600005 db).1.deleted ≤ orphan_delete_per_tick
sweep_orphan_blobs-le_example = sweep_orphan_blobs-le list_blobs works false 3600005 db
