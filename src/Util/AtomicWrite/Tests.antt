-- ===== src/Util/AtomicWrite/Tests.antt =====
-- A file that is replaced, and one whose replacement cannot be renamed.
use traefik_connect.Common.{
  String, false, [], ◌∷◌, ◌==◌, insert, remove, ok, err, ok-injective, ◌≡◌, refl, All,
}
use traefik_connect.Util.AtomicWrite.{Calls, Files, atomic_write_file, fill_and_rename}
use traefik_connect.Util.AtomicWrite.Laws.{IsWhole, IsSettled, atomic_write_file_lem}

abbrev working : Calls
working = record {
  mkdir_all = ok tt;
  create_temp = ok ".tmp-1";
  chmod = ok tt;
  write = λ s. (ok tt, s);
  sync = ok tt;
  close = ok tt;
  rename = ok tt;
}

abbrev full_disk : Calls
full_disk = record working { write = λ s. (err "no space left on device", "{") }

abbrev files : Files
files = ("w1.json", "old") ∷ []

replaced : (atomic_write_file working "w1.json" "new" files).0 ≡ ok tt
unfolding atomic_write_file fill_and_rename
replaced = refl

kept : atomic_write_file full_disk "w1.json" "new" files ≡ (
  err "no space left on device",
  files
      ∷ (("w1.json", "old") ∷ (".tmp-1", "{") ∷ [])
      ∷ (("w1.json", "old") ∷ (".tmp-1", "") ∷ [])
      ∷ files
      ∷ [],
)
unfolding atomic_write_file fill_and_rename insert remove
kept = refl

distinct : (tmp : String) → full_disk.create_temp ≡ ok tmp → (tmp == "w1.json") ≡ false
distinct tmp e = rw (← ok-injective e) refl

atomic_write_file_lem_example :
    All (IsWhole "w1.json" "new" files) (atomic_write_file full_disk "w1.json" "new" files).1
    × IsSettled "w1.json" "new" files (atomic_write_file full_disk "w1.json" "new" files)
atomic_write_file_lem_example =
    atomic_write_file_lem "w1.json" "new" files full_disk distinct (λ e. cc e)
