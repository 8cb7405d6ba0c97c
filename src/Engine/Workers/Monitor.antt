-- ===== src/Engine/Workers/Monitor.antt =====
-- A driver that notes each call made of it after Close.
use chitchat.Base.{Bool, true, false, ◌||◌, ◌≡◌, arith}
use chitchat.Broker.Driver.{Driver}

-- A driver's state, whether it was closed, and whether it was called after that.
pub record Monitored (D : Type 0) : Type 0 where
  pub inner : D
  pub closed : Bool
  pub misused : Bool

abbrev pub used : {D : Type 0} → Monitored D → D → Monitored D
used m d = record m { inner = d; misused = m.misused || m.closed }

abbrev pub monitored : {D : Type 0} → Driver D → Driver (Monitored D)
monitored drv = record {
  connect = λ url m. let (err, d) = drv.connect url m.inner in (err, used m d);
  declare_topology = λ ds m. let (err, d) = drv.declare_topology ds m.inner in (err, used m d);
  start_consuming = λ q m. let (err, d) = drv.start_consuming q m.inner in (err, used m d);
  publish =
      λ ex key body hs m. let (err, d) = drv.publish ex key body hs m.inner in (err, used m d);
  close = λ m. let (err, d) = drv.close m.inner in (err, record (used m d) { closed = true });
}

abbrev pub unused : {D : Type 0} → D → Monitored D
unused d = record { inner = d; closed = false; misused = false }

-- The driver is open, and always was.
abbrev pub IsOpen : {D : Type 0} → Monitored D → Type 0
IsOpen m = (m.closed ≡ false) × (m.misused ≡ false)

pub used-IsOpen : {D : Type 0} (m : Monitored D) (d : D) → IsOpen m → IsOpen (used m d)
used-IsOpen m d h = ground arith
