-- ===== src/EcsTask.antt =====
-- plugins/modules/ecs_taskdefinition.py: the revisions of a task definition. `Values` are the values
-- of JSON with Python's equality, `Match` compares what is asked for with what there is, `Register`
-- and `Manager` are the class `EcsTaskManager`, and `Main` is the function `main`.
pub mod Values
pub mod Match
pub mod Register
pub mod Manager
pub mod Main
mod Tests
