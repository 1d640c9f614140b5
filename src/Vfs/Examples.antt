-- ===== src/Vfs/Examples.antt =====
-- The theorems about kernel/fs/vfs.c at a tree with the root alone, and at one file.
use lithium_kernel.Prelude.{
  ℕ, zero, suc, ◌+◌, ◌≡◌, refl, ap, ◌∙◌, ◌⊎◌, true, false, none, some, List, [], ◌∷◌, ◌++◌, arith,
  length, get_elem?, take, drop,
}
use lithium_kernel.Path.{slash, part, after_part}
use lithium_kernel.Path.Spec.{Name, render, IsName, AllNames}
use lithium_kernel.Vfs.Tmpfs.{TmpFile, Memory, write_record, tmpfs_write}
use lithium_kernel.Vfs.Tmpfs.Content.{Fits, content, tmpfs_write_lem}
use lithium_kernel.Vfs.Node.{
  Kind, Ops, Vnode, Vfs, same_name, children_at, find_child, lookup_from, vfs_lookup, modify,
  vnode_create, last_part, split_parent_path,
}
use lithium_kernel.Vfs.Node.Names.{AllBelow, IsTree}
use lithium_kernel.Vfs.Node.Lookup.{descend, vfs_lookup-render}
use lithium_kernel.Vfs.Calls.{
  write_content, fill_file, file_at, create_in, vfs_create_file, vfs_read_all,
}
use lithium_kernel.Vfs.Calls.RoundTrip.{IsPlace, vfs_create_file-read_all, vfs_create_file_succeeds}
use lithium_kernel.Vfs.Files.{Files, free_slot, open_at, vfs_open_in, vfs_read_in}
use lithium_kernel.Vfs.Files.Reads.{IsOpen, vfs_read_in-created}
use mathlib.Core.Path.{subst}
use mathlib.Core.List.{reverse}

-- A tree with the root alone.
abbrev demo_root : Vnode
demo_root = record {
  name = slash ∷ [];
  kind = Kind.dir;
  size = 0;
  content = none;
  ops = Ops.tmpfs_dir_ops;
  parent = none;
  children = [];
}

abbrev demo_vfs : Vfs
demo_vfs = demo_root ∷ []

demo_linked : (i : ℕ) → AllBelow 1 (children_at demo_vfs i)
demo_linked zero = tt
demo_linked (suc i) = tt

demo_files :
    (i : ℕ) (v : Vnode)
    → get_elem? demo_vfs i ≡ some v
    → v.kind ≡ Kind.file
    → v.ops ≡ Ops.tmpfs_file_ops
demo_files zero v e k = let same : demo_root ≡ v = cc e in cc (ap (λ x. x.kind) same ∙ k)
demo_files (suc i) v e k = cc e

demo_fitting : (i : ℕ) (v : Vnode) → get_elem? demo_vfs i ≡ some v → Fits v.content
demo_fitting zero v e = let same : demo_root ≡ v = cc e in subst (λ x. Fits x.content) same tt
demo_fitting (suc i) v e = cc e

demo_vfs-IsTree : IsTree demo_vfs
demo_vfs-IsTree = record {
  rooted = omega arith;
  linked = demo_linked;
  files = demo_files;
  fitting = demo_fitting;
}

abbrev demo_memory : Memory
demo_memory = record { node_ok = true; file_ok = true; buffer_ok = true; garbage = λ i. 0 }

-- `/a`
abbrev demo_name : List ℕ
demo_name = b'a' ∷ []

abbrev demo_path : List ℕ
demo_path = slash ∷ b'a' ∷ []

abbrev demo_bytes : List ℕ
demo_bytes = b'h' ∷ b'i' ∷ []

abbrev no_names : List Name
no_names = []

demo_IsName : IsName demo_name
demo_IsName = record {
  nonempty = refl;
  plain = (λ z. cc z, tt);
  not_dot = refl;
  not_dot_dot = refl;
}

demo_names : AllNames (demo_name ∷ no_names)
demo_names = (demo_IsName, tt)

abbrev demo_file : TmpFile
demo_file = record { bytes = λ i. 7; size = 2; cap = 16 }

demo_vfs-IsPlace : IsPlace demo_vfs demo_name no_names
unfolding vfs_lookup lookup_from find_child part after_part
demo_vfs-IsPlace = record { parent = 0; found = refl; directory = refl; free = λ q e. cc e }

abbrev no_files : Files
no_files = λ i. record { vnode = 0; offset = 0; valid = false }

abbrev filled : Vfs
filled = (vfs_create_file demo_memory demo_vfs demo_path (some demo_bytes) 2).0

demo_created : vfs_create_file demo_memory demo_vfs demo_path (some demo_bytes) 2 ≡ (filled, true)
unfolding vfs_create_file create_in split_parent_path last_part vfs_lookup lookup_from find_child
    part after_part file_at fill_file vnode_create modify write_content tmpfs_write write_record
demo_created = refl

abbrev demo_files' : Files
demo_files' = (vfs_open_in no_files filled demo_path).0

demo_opened : vfs_open_in no_files filled demo_path ≡ (demo_files', some 3)
unfolding vfs_open_in open_at free_slot vfs_create_file create_in split_parent_path last_part
    vfs_lookup lookup_from find_child part after_part file_at fill_file vnode_create modify
    write_content tmpfs_write write_record same_name
demo_opened = refl

abbrev demo_node : Vnode
demo_node = record {
  name = demo_name;
  kind = Kind.file;
  size = 2;
  content = some demo_file;
  ops = Ops.tmpfs_file_ops;
  parent = some 0;
  children = [];
}

abbrev one_file : Vfs
one_file = demo_node ∷ []

abbrev one_open : Files
one_open = λ i. record { vnode = 0; offset = 0; valid = true }

one_open-IsOpen : IsOpen one_open one_file 3 demo_node
one_open-IsOpen = record { range = omega arith; valid = refl; entry = refl; ops = refl }

abbrev demo_chunk : ℕ
demo_chunk = 1

tmpfs_write_lem_example :
    let (o', r) = tmpfs_write demo_memory ((some demo_file)) demo_bytes 1 in
    Fits o'
    × (((r ≡ none) × (content o' ≡ content ((some demo_file))))
        ⊎ ((r ≡ some (length demo_bytes))
            × (content o'
                ≡ take 1 (content ((some demo_file)))
                  ++ (demo_bytes ++ drop (1 + length demo_bytes) (content ((some demo_file)))))))
tmpfs_write_lem_example =
    tmpfs_write_lem demo_memory ((some demo_file)) demo_bytes 1 (omega arith) (omega arith)
      (omega arith)

vfs_lookup-render_example :
    vfs_lookup demo_vfs (render ((demo_name ∷ no_names)))
    ≡ descend demo_vfs 0 (reverse ((demo_name ∷ no_names)))
vfs_lookup-render_example =
    vfs_lookup-render demo_vfs ((demo_name ∷ no_names)) demo_names (omega arith)

vfs_create_file-read_all_example :
    IsTree filled
    × (vfs_read_all demo_memory filled (render (demo_name ∷ no_names)) ≡ some demo_bytes)
vfs_create_file-read_all_example =
    vfs_create_file-read_all demo_memory demo_memory demo_vfs filled demo_name no_names demo_bytes
      demo_vfs-IsTree demo_names (omega arith) (omega arith) refl demo_created

vfs_create_file_succeeds_example :
    (vfs' : Vfs) × (vfs_create_file demo_memory demo_vfs
        (render (demo_name ∷ no_names))
        (some demo_bytes)
        (length demo_bytes)
      ≡ (vfs', true))
vfs_create_file_succeeds_example =
    vfs_create_file_succeeds demo_memory demo_vfs demo_name no_names demo_bytes demo_vfs-IsTree
      demo_names (omega arith) (omega arith) (omega arith) demo_vfs-IsPlace refl refl refl

vfs_read_in-created_example :
    (vfs_read_in demo_files' filled 3 demo_chunk).1 ≡ some (take demo_chunk demo_bytes)
vfs_read_in-created_example =
    vfs_read_in-created demo_memory demo_vfs filled demo_name no_names demo_bytes no_files
      demo_files' 3 demo_chunk demo_vfs-IsTree demo_names (omega arith) (omega arith) demo_created
      demo_opened
