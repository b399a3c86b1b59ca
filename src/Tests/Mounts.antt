-- ===== src/Tests/Mounts.antt =====
-- A mount table with one share, and a CIFS mount on another directory.
use mingyue_go.Base.{
  HasNoSpace, List, Text, [], arith, codes, false, is_space, none, refl, some, true, ◌∷◌, ◌≡◌, ◌≢◌,
  ◌⊎◌,
}
use mingyue_go.Errors.{GoError, ok, err, done}
use mingyue_go.Storage.{Files, WriteEnv}
use mingyue_go.Mount.{Mount, MountOptions, validate_persistent_mount_options}
use mingyue_go.Mount.Table.{is_mounted}
use mingyue_go.Mount.Fstab.{lines_of, fstab_text, atomic_write_file, line_mount_point, entry_text}
use mingyue_go.Mount.Fstab.Atomic.{atomic_write_file_lem}
use mingyue_go.Mount.Fstab.Lines.{lines_of-fstab_text}
use mingyue_go.Mount.Fstab.Replace.{line_mount_point-entry_text}
use mingyue_go.Mount.Service.{MountState, MountEnv, list_mounts, mount}
use mingyue_go.Mount.Service.Secrets.{with_credentials, seen, mount-credentials}

abbrev pub calm : WriteEnv
calm = record {
  temp = codes "/etc/.fstab-1";
  mkdir = none;
  create = none;
  chmod = none;
  write = none;
  partial = [];
  sync = none;
  close = none;
  rename = none;
  removes = true;
}

abbrev pub env : MountEnv
env = record {
  open_error = none;
  table = codes "/dev/sda1 /data ext4 rw 0 0";
  read_error = none;
  run = λ command. ([], none);
  creds = record {
    temp = codes "/tmp/mingyue-cifs-1";
    create = none;
    chmod = none;
    write = none;
    write_domain = none;
    close = none;
    left = [];
    removes = true;
  };
  persist = record { read_error = none; creds = calm; fstab = calm };
}

abbrev data_mount : Mount
data_mount = record {
  device = codes "/dev/sda1";
  mount_point = codes "/data";
  fs_type = codes "ext4";
  options = codes "rw";
}

abbrev no_files : Files
no_files q = none

abbrev start : MountState
start = record { files = no_files; commands = []; journal = some [] }

abbrev on_data : MountOptions
on_data = record {
  source = codes "//nas/films";
  mount_point = codes "/data";
  fs_type = codes "cifs";
  read_only = true;
  options = [];
  username = codes "anna";
  password = codes "secret";
  domain = [];
  persistent = false;
}

abbrev on_films : MountOptions
on_films = record on_data { mount_point = codes "/films" }

table_read : list_mounts env ≡ ok (data_mount ∷ [])
unfolding list_mounts
table_read = refl

valid : validate_persistent_mount_options on_data ≡ done
unfolding validate_persistent_mount_options
valid = refl

taken : is_mounted on_data.mount_point (data_mount ∷ []) ≡ true
unfolding is_mounted
taken = refl

mount-credentials_example :
    seen (
      mount none env
        (with_credentials (codes "bob") (codes "other") [] on_films)
        (codes "cli")
        start)
    ≡ seen (mount none env on_films (codes "cli") start)
mount-credentials_example =
    mount-credentials none env on_films (codes "bob") (codes "other") (codes "cli") start refl

films-HasNoSpace : HasNoSpace (codes "//nas/films")
unfolding is_space
films-HasNoSpace =
    (refl, (refl, (refl, (refl, (refl, (refl, (refl, (refl, (refl, (refl, (refl, tt)))))))))))

data-HasNoSpace : HasNoSpace (codes "/data")
unfolding is_space
data-HasNoSpace = (refl, (refl, (refl, (refl, (refl, tt)))))

line_mount_point-entry_text_example :
    line_mount_point (entry_text (codes "//nas/films") (codes "/data") (codes "cifs") (codes "ro"))
    ≡ some (codes "/data")
line_mount_point-entry_text_example =
    line_mount_point-entry_text b'/' b'/' (codes "/nas/films") (codes "data") (codes "cifs")
      (codes "ro") (λ e. omega arith) films-HasNoSpace data-HasNoSpace

abbrev entry : Text
entry = entry_text (codes "//nas/films") (codes "/data") (codes "cifs") (codes "ro")

apart : calm.temp ≢ codes "/etc/fstab"
apart e = ground arith

atomic_write_file_lem_example :
    (((atomic_write_file calm (codes "/etc/fstab") entry 0o644 no_files).0 ≡ done)
      × ((atomic_write_file calm (codes "/etc/fstab") entry 0o644 no_files).1 (codes "/etc/fstab")
          ≡ some (record { content = entry; mode = 0o644 })))
    ⊎ (((e : GoError) × ((atomic_write_file calm (codes "/etc/fstab") entry 0o644 no_files).0
            ≡ err e))
        × ((atomic_write_file calm (codes "/etc/fstab") entry 0o644 no_files).1 (codes "/etc/fstab")
            ≡ none))
atomic_write_file_lem_example =
    atomic_write_file_lem calm (codes "/etc/fstab") entry 0o644 no_files apart

lines_of-fstab_text_example :
    lines_of (fstab_text (codes "# a" ∷ [] ∷ codes "b c" ∷ []))
    ≡ codes "# a" ∷ [] ∷ codes "b c" ∷ []
lines_of-fstab_text_example =
    lines_of-fstab_text (codes "# a" ∷ [] ∷ []) b'b' (codes " c") (ground arith) (ground arith)

abbrev old_lines : List Text
old_lines =
    codes "# fstab" ∷ codes "/dev/sda1 /data ext4 rw 0 0" ∷ codes "/dev/sdb1 /b xfs rw 0 0" ∷ []
