-- ===== src/Vm/PageTable/Examples.antt =====
-- A page mapped, translated and unmapped, and the theorems there.
use omniagent_os.Base.{◌≡◌, List, [], ◌∷◌, arith}
use omniagent_os.Vm.PageTable.{new}
use omniagent_os.Vm.PageTable.Runs.{
  Operation, maps, unmaps, updates, translates, step, step_spec, answers, answers-step_spec,
}

abbrev script : List Operation
script =
    maps 0x201000 0x5000 3
    ∷ translates 0x201234
    ∷ maps 0x201000 0x6000 3
    ∷ updates 0x201000 1
    ∷ maps 0x7000 0x9000 1
    ∷ unmaps 0x201000
    ∷ translates 0x201234
    ∷ translates 0x7001
    ∷ unmaps 0x8000
    ∷ maps 0x800000000000 0x1000 1
    ∷ []

answers-step_spec_example : answers step new script ≡ answers step_spec (λ v. 0) script
answers-step_spec_example =
    answers-step_spec script
      (
        omega arith,
        (
          omega arith,
          (
            omega arith,
            (
              omega arith,
              (
                omega arith,
                (omega arith, (omega arith, (omega arith, (omega arith, (omega arith, tt))))),
              ),
            ),
          ),
        ),
      )
      (omega arith)
