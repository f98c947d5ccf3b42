-- ===== src/Build/Main.antt =====
-- The directives that the build script examples/atalanta-bsp/build.rs prints for cargo. Its
-- environment variables are arguments. In what order the standard library gives the members of a set
-- is a parameter, `items`.
use atalanta.Prelude.{
  codes, ℕ, Bool, true, false, Option, some, List, [], ◌∷◌, ◌++◌, map, if◌then◌else◌,
}
use atalanta.Build.{HashSet, parse_extensions, ◌>>=◌}
use atalanta.Build.Chars.{Text, starts_with}

-- A line of output; `link_search` and `rerun_if_memory_changed` are those of the linker script.
pub data Directive : Type 0 where
  link_search rerun_if_memory_changed rerun_if_changed : Directive
  check_cfg : ℕ → Directive
  cfg_riscv : Directive
  cfg_ext : ℕ → Directive

abbrev pub valid_riscv_extensions : List ℕ
valid_riscv_extensions = codes "iemcafd"

-- `rt` is the feature. The copy of the script into the output directory is left out.
unfoldable pub add_linker_script : Bool → List Directive
add_linker_script rt = if rt then link_search ∷ rerun_if_memory_changed ∷ [] else []

-- The block for a RISC-V target.
unfoldable pub riscv_cfgs : (HashSet → List ℕ) → Text → Text → Option (List Directive)
riscv_cfgs items target cargo_flags = do
  extensions ← parse_extensions target cargo_flags
  some (cfg_riscv ∷ map cfg_ext (items extensions))

unfoldable pub main : (HashSet → List ℕ) → Bool → Text → Text → Option (List Directive)
unfolding add_linker_script riscv_cfgs starts_with
main items rt target cargo_flags = do
  cfgs ← (elim (starts_with (codes "riscv") target) [
    | true ↦ riscv_cfgs items target cargo_flags
    | false ↦ some []
  ])
  some (
      add_linker_script rt
      ++ (map check_cfg valid_riscv_extensions ++ (cfgs ++ (rerun_if_changed ∷ []))))
