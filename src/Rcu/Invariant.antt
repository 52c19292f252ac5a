-- ===== src/Rcu/Invariant.antt =====
-- src/urcu.c: where each reader's node is, and why `synchronize_rcu` waits for it.
mod Defs
mod Fields
pub use Defs.*
pub use Fields.{Step-Inv}
use liburcu.Prelude.{refl, inl, ◌≡◌}
use liburcu.Rcu.System.{System, init, Run, here, then_step}

pub Inv-init : Inv init
Inv-init = record {
  parity = inl refl;
  reading = λ i g e. cc;
  active = λ i h. absurd (h refl);
  listed = λ i h. cc;
  settled = (refl, refl);
  older_active = λ i h. cc;
  waited = λ i h. cc;
}

-- Every reachable state satisfies the invariant.
pub Run-Inv : {s t : System} → Inv s → Run s t → Inv t
Run-Inv inv here = inv
Run-Inv inv (then_step r st) = Step-Inv (Run-Inv inv r) st
