-- ===== src/Achievements/Life.antt =====
-- The calls of achievements/services/grants.py and notifications.py that write, one after another.
-- A call that raises leaves the tables as they were.
pub mod Reached
pub mod Delivered
pub mod Framed
pub mod Unique
use ticket_sandbox.Prelude.{ℕ, ◌≡◌, ok}
use ticket_sandbox.Prelude.Text.{Text}
use ticket_sandbox.Prelude.Json.{Json}
use ticket_sandbox.Achievements.Records.{Time, Store}
use ticket_sandbox.Achievements.Grants.{GrantRequest, RevokeRequest, Receipt}
use ticket_sandbox.Achievements.Grants.Grant.{grant}
use ticket_sandbox.Achievements.Grants.Revoke.{revoke}
use ticket_sandbox.Achievements.Grants.Dispute.{Correction, flag_disputed}
use ticket_sandbox.Achievements.Notifications.{Claimed, claim, acknowledge}
use ticket_sandbox.Achievements.Notifications.Repair.{repair_delivery}

-- One call that returns.
pub data Step (digest : Json → Text) (s t : Store) : Type 0 where
  granted :
      (q : GrantRequest) (now : Time) (r : Receipt)
      → grant digest s q now ≡ ok (r, t)
      → Step digest s t
  withdrawn :
      (q : RevokeRequest) (now : Time) (r : Receipt)
      → revoke digest s q now ≡ ok (r, t)
      → Step digest s t
  corrected : (c : Correction) (now : Time) → flag_disputed digest s c now ≡ ok t → Step digest s t
  claimed :
      (user event : ℕ) (token : Text) (now : Time) (c : Claimed)
      → claim s user event token now ≡ ok (c, t)
      → Step digest s t
  acknowledged :
      (user event : ℕ) (token : Text) (now w : Time)
      → acknowledge s user event token now ≡ ok (w, t)
      → Step digest s t
  repaired : (limit made : ℕ) → repair_delivery s limit ≡ (made, t) → Step digest s t

-- Any number of calls.
pub data Steps (digest : Json → Text) (s : Store) : Store → Type 0 where
  no_call : Steps digest s s
  next : {t u : Store} → Steps digest s t → Step digest t u → Steps digest s u
