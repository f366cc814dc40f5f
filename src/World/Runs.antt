-- ===== src/World/Runs.antt =====
-- How a method of the database ends when it is run in the world.
use personal_voice_msg.Exec.{Error, Result, ok, err, Exec}
use personal_voice_msg.Exec.Ends.{Outcome, Ends}
use personal_voice_msg.Database.Schema.{Db}
use personal_voice_msg.World.{World, on_db}

-- The world with another database.
abbrev pub with_db : World → Db → World
with_db w db = record w { db = db }

module _ {A : Type 0} (Q : A → World → Type 0) (R : Error → World → Type 0) where
  in_world :
      (w : World) (r : Result A) (t : Db)
      → Outcome (λ a d. Q a (with_db w d)) (λ e d. R e (with_db w d)) r t
      → Outcome Q R r (with_db w t)
  in_world w (ok a) t h = h
  in_world w (err e) t h = h

module _ {A : Type 0} {Q : A → World → Type 0} {R : Error → World → Type 0} where
  pub Ends-on_db :
      (m : Exec Db A) (w : World)
      → Ends m w.db (λ a d. Q a (with_db w d)) (λ e d. R e (with_db w d))
      → Ends (on_db m) w Q R
  unfolding on_db
  Ends-on_db m w h = record { at = in_world Q R w (m w.db).0 (m w.db).1 h.at }
