-- ===== src/World/Quiet.antt =====
-- Runs that touch neither the deliveries and messages nor the delivered notes.
use personal_voice_msg.Prelude.{◌≡◌, refl}
use personal_voice_msg.Exec.{Exec}
use personal_voice_msg.Exec.Keeps.{Keeps}
use personal_voice_msg.Database.Schema.{Db}
use personal_voice_msg.Database.Control.Effects.{HasTables}
use personal_voice_msg.World.{World, on_db}

pub record IsQuiet (w t : World) : Type 0 where
  pub tables : HasTables w.db.deliveries w.db.messages t.db
  pub outbox : t.outbox ≡ w.outbox

pub IsQuiet-refl : (w : World) → IsQuiet w w
IsQuiet-refl w = record { tables = record { deliveries = refl; messages = refl }; outbox = refl }

-- A method that keeps the two tables is quiet in the world.
pub on_db-IsQuiet :
    {A : Type 0} (w : World) (m : Exec Db A)
    → Keeps (HasTables w.db.deliveries w.db.messages) m
    → Keeps (IsQuiet w) (on_db m)
unfolding on_db
on_db-IsQuiet w m k = record {
  at = λ t h. record { tables = k.at t.db h.tables; outbox = h.outbox };
}
