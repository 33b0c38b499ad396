-- ===== src/Tests/Compose.antt =====
-- A build of one image, composed to an image that is its layers and its configuration file.
use xmorph.Base.{
  ℕ, Bool, true, false, Option, none, some, List, [], ◌∷◌, ◌++◌, suc, ◌≡◌, refl, ap, sym,
}
use xmorph.Base.Bytes.{Bytes, codes}
use xmorph.Base.Result.{ok}
use xmorph.Config.Types.{Layer, image, rootfs}
use xmorph.Cli.Build.Compose.{Composer, compose_image, set_config}
use xmorph.Cli.Build.Compose.Readback.{IsComposer, IsComposed, compose_image-build}
use xmorph.Oci.ImageConfig.{
  ImageConfig, ConfigFile, merge_image_config, image_config, read_image_config,
}
use xmorph.Oci.Source.{classify_image, classify_rootfs, looks_like_local_path}
use xmorph.Rootfs.Builder.{BuildResult, Sources, build, build_layers, extract_layer, add_layer}
use xmorph.Rootfs.Copy.{
  Found, directory, regular, symlink, Call, make_all, remove_all, open_source, make_link, create,
  copy_into, write_header, pack_content, compress, close_archive, tar_directory, pack_walk,
  pack_found,
}
use xmorph.Tests.Data.{alpine}

abbrev file_of : ImageConfig → ConfigFile (Unit {0})
file_of c = record {
  entrypoint = c.entrypoint;
  cmd = c.cmd;
  env = c.env;
  working_dir = c.working_dir;
  rest = tt;
}

-- An archive holds the names of its entries.
abbrev add_name : Call → Bytes → Bytes
add_name (make_all p m) tar = tar
add_name (remove_all p) tar = tar
add_name (open_source p) tar = tar
add_name (make_link l p) tar = tar
add_name (create p m) tar = tar
add_name (copy_into d p) tar = tar
add_name (write_header name link) tar = name ++ b'\n' ∷ tar
add_name (pack_content p) tar = tar
add_name compress tar = tar
add_name close_archive tar = tar

abbrev names : List Call → Bytes
names [] = []
names (c ∷ cs) = add_name c (names cs)

abbrev in_memory : Composer
in_memory = record {
  Image = List Bytes × ConfigFile (Unit {0});
  ImageLayer = Bytes;
  Rest = Unit {0};
  archive = λ calls. names calls;
  layer_from = λ tar. some tar;
  empty_image =
      ([], record { entrypoint = none; cmd = none; env = none; working_dir = []; rest = tt });
  append_layers = λ img l. some (img.0 ++ l ∷ [], img.1);
  config_file = λ img. some (some img.1);
  set_config_file = λ img f. some (img.0, f);
}

some-injective {ℓ} : {A : Type ℓ} {a b : A} → Path (Option A) (some a) (some b) → a ≡ b
some-injective h = cc

in_memory-IsComposer : IsComposer in_memory (λ img. img.0)
in_memory-IsComposer = record {
  no_layers = refl;
  append_layer = λ img after l e. ap (λ (i : in_memory.Image). i.0) (sym (some-injective e));
  set_file = λ img after f e. (
    ap (λ (i : in_memory.Image). i.0) (sym (some-injective e)),
    ap (λ (i : in_memory.Image). some (some i.1)) (sym (some-injective e)),
  );
}

-- A disk that only counts its calls, with one image.
abbrev one_image : Sources ℕ
one_image = record {
  Image = ConfigFile (Unit {0});
  Rest = Unit {0};
  stat = λ s path. some false;
  make_dir = λ path s. (suc s, true);
  load_image = λ ref kind. some (file_of alpine);
  extract_image = λ img dir s. (suc s, true);
  config_file = λ img. some (some img);
  extract_tarball = λ path dir s. (suc s, true);
  copy_dir = λ path dir s. (suc s, true);
}

abbrev layers : List Layer
layers = image (codes "alpine") ∷ rootfs (codes "/a.tar") ∷ []

abbrev built : BuildResult
built = record { target_dir = codes "/work"; layer_count = 2; config = some alpine }

build_layers_two : (build one_image (codes "/work") layers 0).1 ≡ ok built
unfolding build build_layers extract_layer add_layer merge_image_config read_image_config
    image_config classify_image classify_rootfs looks_like_local_path
build_layers_two = refl

abbrev walk : List (Bytes × Found)
walk =
    (codes "bin", directory 493)
    ∷ (codes "bin/sh", symlink (some (codes "busybox")))
    ∷ (codes "init", regular 493)
    ∷ []

abbrev all_work : Call → Bool
all_work call = true

abbrev composed : List Bytes × ConfigFile (Unit {0})
composed = (codes "bin/\nbin/sh\ninit\n" ∷ [], file_of alpine)

compose_image_two :
    compose_image in_memory all_work (codes "/work") walk (some alpine) ≡ ok composed
unfolding compose_image set_config tar_directory pack_walk pack_found
compose_image_two = refl

file_is_there :
    (f : ConfigFile (Unit {0}))
    → ¬ (Path (Option (Option (ConfigFile (Unit {0})))) (some (some f)) (some none))
file_is_there f e = cc

compose_image-build_example :
    (c : ImageConfig) × (some alpine ≡ some c)
    × IsComposed in_memory
        (λ img. img.0)
        in_memory-IsComposer
        all_work
        (codes "/work")
        walk
        c
        composed
compose_image-build_example =
    compose_image-build in_memory (λ img. img.0) in_memory-IsComposer one_image (codes "/work")
      file_is_there layers 0 built all_work walk composed refl build_layers_two compose_image_two
