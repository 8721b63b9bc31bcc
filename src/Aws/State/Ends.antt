-- ===== src/Aws/State/Ends.antt =====
-- The ends of an action are different from one another.
use capten_autoscaler.Base.{ℕ, Option, none, some, ◌≡◌}
use capten_autoscaler.Cluster.Api.{Error, done, panicked, exited, unfinished}

pub some-none : {e : Error} → done (some e) ≡ done none → ⊥
some-none e = cc

pub panicked_done : {o : Option Error} → panicked ≡ done o → ⊥
panicked_done e = cc

pub exited_done : {o : Option Error} → exited ≡ done o → ⊥
exited_done e = cc

pub unfinished_done : {o : Option Error} → unfinished ≡ done o → ⊥
unfinished_done e = cc

pub none-some : {p : ℕ} → none ≡ some p → ⊥
none-some e = cc
