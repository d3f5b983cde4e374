-- ===== src/Achievements/Tests/Notices.antt =====
-- The notification of an earned tier: shown, claimed, acknowledged, and made again when it is lost.
use ticket_sandbox.Prelude.{
  ◌≤◌, ◌≡◌, refl, Bool, true, false, [], some, ok, raised, nat_eq, arith, All, length,
}
use ticket_sandbox.Prelude.Sets.{contains}
use ticket_sandbox.Prelude.Text.{Text, text_eq, codes, text_beq, strip}
use ticket_sandbox.Achievements.Catalog.{validate_definition, validate_tier, find_schema}
use ticket_sandbox.Prelude.Json.{json_eq}
use ticket_sandbox.Achievements.Errors.{AchievementError, Checked}
use ticket_sandbox.Achievements.Records.{Store, last_proof}
use ticket_sandbox.Achievements.Grants.{lock_user}
use ticket_sandbox.Achievements.Grants.Grant.{grant}
use ticket_sandbox.Achievements.Notifications.{Claimed, Item, claim, acknowledge}
use ticket_sandbox.Achievements.Notifications.Repair.{repair_delivery, undelivered}
use ticket_sandbox.Achievements.Notifications.Exclusive.{claim-excludes, acknowledge-IsFinal}
use ticket_sandbox.Achievements.Notifications.Delivery.{repair_delivery_complete}
use ticket_sandbox.Achievements.Life.{granted, claimed, no_call, next}
use ticket_sandbox.Achievements.Life.Delivered.{IsUnique}
use ticket_sandbox.Achievements.Life.Unique.{Steps-IsUnique}
use ticket_sandbox.Achievements.Tests.Samples.{spell, empty_store, earned, after}
use ticket_sandbox.Achievements.Notifications.{page_size}
use ticket_sandbox.Achievements.Notifications.Feed.{Feed, feed}
use ticket_sandbox.Achievements.Notifications.Shown.{IsShown, feed-IsShown}
use ticket_sandbox.Achievements.Tests.Life.{is_ok, with_bronze, first_run}

abbrev is_leased_answer : Checked (Claimed × Store) → Bool
is_leased_answer (ok (Claimed.leased i z, s)) = true
is_leased_answer (ok (Claimed.already_read e, s)) = false
is_leased_answer (raised e) = false

ran_leased :
    (c : Checked (Claimed × Store))
    → is_leased_answer c ≡ true
    → (i : Item) × (z : Text) × (c ≡ ok (Claimed.leased i z, after c))
ran_leased (ok (Claimed.leased i z, s)) h = (i, z, refl)
ran_leased (ok (Claimed.already_read e, s)) h = cc
ran_leased (raised e) h = cc

abbrev held : Store
held = after (claim with_bronze 1 1 (codes "tab 1") 100)

takes : is_leased_answer (claim with_bronze 1 1 (codes "tab 1") 100) ≡ true
unfolding grant claim acknowledge text_beq json_eq contains spell strip validate_definition
    find_schema validate_tier last_proof
takes = refl

lease :
    (i : Item) × (z : Text) × (claim with_bronze 1 1 (codes "tab 1") 100
      ≡ ok (Claimed.leased i z, held))
lease = ran_leased (claim with_bronze 1 1 (codes "tab 1") 100) takes

bronze-IsUnique : IsUnique with_bronze
bronze-IsUnique =
    Steps-IsUnique spell empty_store with_bronze
      (next no_call (granted earned 10 first_run.0 first_run.1)) tt

held-IsUnique : IsUnique held
held-IsUnique =
    Steps-IsUnique spell empty_store held
      (next (next no_call (granted earned 10 first_run.0 first_run.1))
        (claimed 1 1 (codes "tab 1") 100 (Claimed.leased lease.0 lease.1) lease.2))
      tt

other_token : text_beq (codes "tab 1") (codes "tab 2") ≡ false
unfolding text_beq
other_token = refl

claim-excludes_example :
    (claim held 1 1 (codes "tab 2") 90000099 ≡ raised AchievementError.already_claimed)
    × (acknowledge held 1 1 (codes "tab 2") 95000000 ≡ raised AchievementError.claim_required)
    × ((u : Store) × (acknowledge held 1 1 (codes "tab 1") 95000000 ≡ ok (95000000, u)))
claim-excludes_example =
    claim-excludes with_bronze held 1 1 (codes "tab 1") (codes "tab 2") 100 90000099 95000000
      lease.0 lease.1 lease.2 bronze-IsUnique other_token (omega arith)

abbrev seen : Store
seen = claim-excludes_example.2.0

knows_user : lock_user held 1 ≡ ok tt
unfolding lock_user grant claim acknowledge text_beq json_eq contains spell strip
    validate_definition find_schema validate_tier last_proof
knows_user = refl

acknowledge-IsFinal_example :
    (claim seen 1 1 (codes "tab 2") 99000000 ≡ ok (Claimed.already_read 1, seen))
    × (acknowledge seen 1 1 (codes "tab 2") 99000000 ≡ ok (95000000, seen))
acknowledge-IsFinal_example =
    acknowledge-IsFinal held seen 1 1 (codes "tab 1") (codes "tab 2") 95000000 95000000 99000000
      claim-excludes_example.2.1 held-IsUnique knows_user

-- The tables when the notification of the first event was never made.
abbrev undone : Store
undone = record with_bronze { notifications = [] }

undone-boundary : undone.boundary ≡ some 0
unfolding grant claim acknowledge text_beq json_eq contains spell strip validate_definition
    find_schema validate_tier last_proof
undone-boundary = refl

one_missing : length (undelivered undone 0 undone.awards) ≡ 1
unfolding undelivered grant claim acknowledge text_beq json_eq contains spell strip
    validate_definition find_schema validate_tier last_proof
one_missing = refl

repair_delivery_complete_example :
    let t = (repair_delivery undone 100).1 in
    (undelivered t 0 t.awards ≡ []) × (t.awards ≡ undone.awards) × (repair_delivery t 5 ≡ (0, t))
repair_delivery_complete_example =
    repair_delivery_complete undone 0 100 5 undone-boundary (ground (arith, one_missing))

returns {ℓ} : {A : Type ℓ} (c : Checked A) → is_ok c ≡ true → (a : A) × (c ≡ ok a)
returns (ok a) h = (a, refl)
returns (raised e) h = cc

lists : is_ok (feed with_bronze 1 100) ≡ true
unfolding feed grant text_beq json_eq contains spell strip validate_definition find_schema
    validate_tier last_proof
lists = refl

listed : (f : Feed) × (feed with_bronze 1 100 ≡ ok f)
listed = returns (feed with_bronze 1 100) lists

feed-IsShown_example :
    All (IsShown with_bronze 1) listed.0.items × (length listed.0.items ≤ page_size)
feed-IsShown_example = feed-IsShown with_bronze 1 100 listed.0 listed.1
