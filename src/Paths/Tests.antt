-- ===== src/Paths/Tests.antt =====
-- The theorem of path names of FileSystem-RAID/kernel/fs.c at a concrete input.
use xv6_kernel_extensions.Prelude.{arith, update, refl}
use xv6_kernel_extensions.Strings.{Memory}
use xv6_kernel_extensions.Paths.{skipelem}
use xv6_kernel_extensions.Paths.Elem.{Element, skipelem-Element}

-- "/a"
abbrev short_path : Memory
short_path = update (update (λ a. 0) 0 47) 1 97

skipelem_example : Element short_path 0 (λ a. 0) (skipelem short_path 0 (λ a. 0))
skipelem_example = skipelem-Element short_path 0 2 (λ a. 0) (omega arith) (omega arith) refl
