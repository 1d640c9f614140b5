-- ===== src/Elf/Examples.antt =====
-- The theorems about kernel/proc/elf.c at an image of 200 bytes with one segment.
use lithium_kernel.Prelude.{ℕ, ◌%◌, ◌≡◌, refl, true, List, [], ◌∷◌, ◌==◌, if◌then◌else◌}
use lithium_kernel.Elf.{range_ok, Ehdr, Phdr, header_ok, segment_ok, elf_load_user_image}
use lithium_kernel.Elf.Load.{IsImage, WhyRefused, elf_load_user_image_lem}
use lithium_kernel.Vmm.Demo.{demo, demo_place, demo-Tree}
use lithium_kernel.Vmm.Tree.{Ensures}

-- A segment of 100 bytes of the file in 200 of memory.
abbrev demo_segment : Phdr
demo_segment = record {
  kind = 1;
  flags = 5;
  offset = 0;
  vaddr = 0x400010;
  filesz = 100;
  memsz = 200;
  align = 4096;
}

abbrev demo_segments : List Phdr
demo_segments = demo_segment ∷ []

abbrev demo_file : ℕ → ℕ
demo_file = λ i. i % 256

demo_accepted : segment_ok 200 demo_segment ≡ true
unfolding segment_ok range_ok
demo_accepted = refl

abbrev demo_header : Ehdr
demo_header = record {
  ident = λ i.
      if i == 0
      then 0x7f
      else if i == 1
      then b'E'
      else if i == 2
      then b'L'
      else if i == 3
      then b'F'
      else if i == 4
      then 2
      else 1;
  kind = 2;
  machine = 62;
  version = 1;
  entry = 0x400010;
  phoff = 64;
  ehsize = 64;
  phentsize = 56;
  phnum = 1;
}

demo_header_accepted : header_ok 200 demo_header ≡ true
unfolding header_ok range_ok
demo_header_accepted = refl

elf_load_user_image_lem_example :
    Ensures
      (λ image v'. IsImage 4096 demo_file 200 demo_header demo_segments demo image v')
      (λ v'. WhyRefused 4096 200 demo_header demo_segments v')
      (elf_load_user_image 4096 demo_file 200 demo_header demo_segments demo)
elf_load_user_image_lem_example =
    elf_load_user_image_lem 4096 demo_file 200 demo_header demo_segments demo_place demo demo-Tree
