-- ===== src/Tests/Entries.antt =====
-- A run of the audit log.
use plynth.World.{empty_world}
use plynth.Audit.{log_entry, event}
use plynth.Audit.Scope.{IsScoped, log_entry-IsScoped}
use plynth.Prelude.{[], some, none, All}

log_entry-IsScoped_example :
    All IsScoped (log_entry (event "job.create" none "job" 4 (some 1) 9) empty_world.ctx [])
log_entry-IsScoped_example =
    log_entry-IsScoped (event "job.create" none "job" 4 (some 1) 9) empty_world.ctx [] tt
