-- ===== src/User/MemMap/Tests.antt =====
-- A machine with pages of 4096 bytes that maps at one address, and a mapping on it.
use osal.Base.{
  ℕ, ◌+◌, ◌-◌, ◌^◌, ◌≡◌, refl, ap, Bool, true, false, Option, none, some, List, [], ◌∷◌, arith, ltb,
  length,
}
use osal.User.MemMap.{MapApi, os_map_io_to_mem_cache, os_map_io_to_mem_nocache}
use osal.User.MemMap.Ranges.{Mapping, Made, Linux, Mapped, map-unmap}

abbrev Machine : Type 0
Machine = List Mapping × ℕ

-- A length of 2 ^ 31 or more does not fit.
abbrev place : Bool → (length offset : ℕ) → Machine → Option ℕ × Machine
place false length offset w = (none, w)
place true length offset (ms, n) =
    (some 65536, (record { addr = 65536; bytes = length; from = offset } ∷ ms, n))

abbrev unplace : List Mapping → List Mapping
unplace [] = []
unplace (m ∷ ms) = ms

abbrev machine : MapApi Machine
machine = record {
  open_devmem = λ sync w. (some 3, (w.0, w.1 + 1));
  mmap = λ length fd offset w. place (ltb length (2 ^ 31)) length offset w;
  close = λ fd w. (w.0, w.1 - 1);
  munmap = λ addr length w. (unplace w.0, w.1);
}

place-Made :
    (b : Bool) (length offset : ℕ) (w : Machine)
    → ltb length (2 ^ 31) ≡ b
    → Made (λ v. v.0) 4096 length offset w.0 (place b length offset w)
      × ((place b length offset w).1.1 ≡ w.1)
place-Made false length offset w e = (refl, refl)
place-Made true length offset (ms, n) e = ((refl, ground arith, refl), refl)

machine-Linux : Linux machine 4096 (λ w. w.0) (λ w. w.1)
machine-Linux = record {
  open_devmem = λ sync w. (refl, refl);
  mmap = λ length fd offset w. place-Made (ltb length (2 ^ 31)) length offset w refl;
  close = λ fd w. (refl, refl);
  munmap = λ m rest w e. (ap unplace e, refl);
}

-- The registers at 0xdffe0010, which begin 16 bytes into a page.
registers : (os_map_io_to_mem_nocache machine 4096 3758030864 512 ([], 2)).0 ≡ some 65552
unfolding os_map_io_to_mem_nocache
registers = refl

map-unmap_example :
    Mapped machine 4096
      (λ w. w.0)
      (λ w. w.1)
      3758030864
      512
      []
      2
      (os_map_io_to_mem_cache machine 4096 3758030864 512 ([], 2))
    × Mapped machine 4096
        (λ w. w.0)
        (λ w. w.1)
        3758030864
        512
        []
        2
        (os_map_io_to_mem_nocache machine 4096 3758030864 512 ([], 2))
map-unmap_example =
    map-unmap machine 4096 (λ w. w.0) (λ w. w.1) machine-Linux (omega arith) 3758030864 512 ([], 2)
      (omega arith)
