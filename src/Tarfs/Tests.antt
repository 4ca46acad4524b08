-- ===== src/Tarfs/Tests.antt =====
-- Runs of the archive, and the theorem at a concrete one.
use myos.Base.{
  ℕ, ◌≡◌, refl, ◌&&◌, some, none, [], ◌∷◌, ltb, leb, ◌==◌, if◌then◌else◌, arith, inr, replicate,
}
use myos.Base.Align.{align_up_u64}
use myos.Base.Text.{codes, same_text}
use myos.Memfs.{slice}
use myos.Tarfs.{Tar, parse_octal, normalize, full_name, find_from, tarfs_find}
use myos.Tarfs.Octal.{octal}
use myos.Tarfs.Find.{Entry, IsHeader, Finds, plain, tarfs_find-Finds}

-- One file, "./a", of three bytes.
abbrev bytes : ℕ → ℕ
bytes a =
    if a == 0x1000
    then b'.'
    else if a == 0x1001
    then b'/'
    else if a == 0x1002
    then b'a'
    else if leb 0x107C a && ltb a 0x1086
    then b'0'
    else if a == 0x1086
    then b'3'
    else if leb 0x1200 a && ltb a 0x1203
    then 65
    else 0

abbrev archive : Tar
archive = record { mem = bytes; start = 0x1000; stop = 0x1800 }

abbrev entry : Entry
entry = record { prefix = []; name = codes "./a"; size = 3 }

found : tarfs_find (codes "a") archive ≡ some (0x1200, 3)
unfolding tarfs_find find_from normalize full_name parse_octal slice same_text align_up_u64
found = refl

missing : tarfs_find (codes "b") archive ≡ none
unfolding tarfs_find find_from normalize full_name parse_octal slice same_text align_up_u64
missing = refl

entry-IsHeader : IsHeader bytes 0x1000 entry
unfolding slice octal
entry-IsHeader = record {
  in_use = λ e. omega (arith, e);
  name_field = (
    replicate 97 0,
    refl,
    ((λ e. omega (arith, e)), ((λ e. omega (arith, e)), ((λ e. omega (arith, e)), refl))),
    refl,
  );
  prefix_field = (replicate 155 0, refl, refl, refl);
  size_field = refl;
  small = omega arith;
  short = omega arith;
}

tarfs_find-Finds_example :
    Finds (plain (codes "./a")) 0x1000 (entry ∷ []) (tarfs_find (codes "./a") archive)
tarfs_find-Finds_example =
    tarfs_find-Finds (codes "./a") archive (entry ∷ []) (omega arith) (omega arith) (omega arith)
      (omega arith) (omega arith, entry-IsHeader, inr refl)
