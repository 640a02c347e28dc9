-- ===== src/Environment/Models.antt =====
-- The names of the models that client_src/environment.js places.
use snow_brawl_game.Base.{List, [], ◌∷◌}
use snow_brawl_game.Base.Text.{Text, utf16}

abbrev pub kenney_glbs : List Text
kenney_glbs =
    utf16 "bench-short.glb"
    ∷ utf16 "bench.glb"
    ∷ utf16 "cabin-corner-bottom.glb"
    ∷ utf16 "cabin-corner-logs.glb"
    ∷ utf16 "cabin-corner.glb"
    ∷ utf16 "cabin-door-rotate.glb"
    ∷ utf16 "cabin-doorway-center.glb"
    ∷ utf16 "cabin-doorway-left.glb"
    ∷ utf16 "cabin-doorway-right.glb"
    ∷ utf16 "cabin-doorway.glb"
    ∷ utf16 "cabin-fence.glb"
    ∷ utf16 "cabin-overhang-door-rotate.glb"
    ∷ utf16 "cabin-overhang-doorway.glb"
    ∷ utf16 "cabin-roof-chimney.glb"
    ∷ utf16 "cabin-roof-corner.glb"
    ∷ utf16 "cabin-roof-dormer.glb"
    ∷ utf16 "cabin-roof-point.glb"
    ∷ utf16 "cabin-roof-snow-chimney.glb"
    ∷ utf16 "cabin-roof-snow-corner.glb"
    ∷ utf16 "cabin-roof-snow-dormer.glb"
    ∷ utf16 "cabin-roof-snow-point.glb"
    ∷ utf16 "cabin-roof-snow.glb"
    ∷ utf16 "cabin-roof-top.glb"
    ∷ utf16 "cabin-roof.glb"
    ∷ utf16 "cabin-wall-low.glb"
    ∷ utf16 "cabin-wall-roof-center.glb"
    ∷ utf16 "cabin-wall-roof.glb"
    ∷ utf16 "cabin-wall-wreath.glb"
    ∷ utf16 "cabin-wall.glb"
    ∷ utf16 "cabin-window-a.glb"
    ∷ utf16 "cabin-window-b.glb"
    ∷ utf16 "cabin-window-c.glb"
    ∷ utf16 "cabin-window-large.glb"
    ∷ utf16 "candy-cane-green.glb"
    ∷ utf16 "candy-cane-red.glb"
    ∷ utf16 "festivus-pole.glb"
    ∷ utf16 "floor-stone.glb"
    ∷ utf16 "floor-wood-snow.glb"
    ∷ utf16 "floor-wood.glb"
    ∷ utf16 "gingerbread-man.glb"
    ∷ utf16 "gingerbread-woman.glb"
    ∷ utf16 "hanukkah-dreidel.glb"
    ∷ utf16 "hanukkah-menorah-candles.glb"
    ∷ utf16 "hanukkah-menorah.glb"
    ∷ utf16 "kwanzaa-kikombe.glb"
    ∷ utf16 "kwanzaa-kinara-alternative.glb"
    ∷ utf16 "kwanzaa-kinara.glb"
    ∷ utf16 "lantern-hanging.glb"
    ∷ utf16 "lantern.glb"
    ∷ utf16 "lights-colored.glb"
    ∷ utf16 "lights-green.glb"
    ∷ utf16 "lights-red.glb"
    ∷ utf16 "nutcracker.glb"
    ∷ utf16 "present-a-cube.glb"
    ∷ utf16 "present-a-rectangle.glb"
    ∷ utf16 "present-a-round.glb"
    ∷ utf16 "present-b-cube.glb"
    ∷ utf16 "present-b-rectangle.glb"
    ∷ utf16 "present-b-round.glb"
    ∷ utf16 "reindeer.glb"
    ∷ utf16 "rocks-large.glb"
    ∷ utf16 "rocks-medium.glb"
    ∷ utf16 "rocks-small.glb"
    ∷ utf16 "sled-long.glb"
    ∷ utf16 "sled.glb"
    ∷ utf16 "snow-bunker.glb"
    ∷ utf16 "snow-flat-large.glb"
    ∷ utf16 "snow-flat.glb"
    ∷ utf16 "snow-pile.glb"
    ∷ utf16 "snowflake-a.glb"
    ∷ utf16 "snowflake-b.glb"
    ∷ utf16 "snowflake-c.glb"
    ∷ utf16 "snowman-hat.glb"
    ∷ utf16 "snowman.glb"
    ∷ utf16 "sock-green-cane.glb"
    ∷ utf16 "sock-green.glb"
    ∷ utf16 "sock-red-cane.glb"
    ∷ utf16 "sock-red.glb"
    ∷ utf16 "train-locomotive.glb"
    ∷ utf16 "train-tender.glb"
    ∷ utf16 "train-wagon-flat-short.glb"
    ∷ utf16 "train-wagon-flat.glb"
    ∷ utf16 "train-wagon-logs.glb"
    ∷ utf16 "train-wagon-short.glb"
    ∷ utf16 "train-wagon.glb"
    ∷ utf16 "trainset-rail-bend.glb"
    ∷ utf16 "trainset-rail-corner.glb"
    ∷ utf16 "trainset-rail-detailed-bend.glb"
    ∷ utf16 "trainset-rail-detailed-corner.glb"
    ∷ utf16 "trainset-rail-detailed-straight.glb"
    ∷ utf16 "trainset-rail-straight.glb"
    ∷ utf16 "tree-decorated-snow.glb"
    ∷ utf16 "tree-decorated.glb"
    ∷ utf16 "tree-snow-a.glb"
    ∷ utf16 "tree-snow-b.glb"
    ∷ utf16 "tree-snow-c.glb"
    ∷ utf16 "tree.glb"
    ∷ utf16 "wreath-decorated.glb"
    ∷ utf16 "wreath.glb"
    ∷ []

abbrev pub kenney_outdoor_glbs : List Text
kenney_outdoor_glbs =
    utf16 "bench-short.glb"
    ∷ utf16 "bench.glb"
    ∷ utf16 "candy-cane-green.glb"
    ∷ utf16 "candy-cane-red.glb"
    ∷ utf16 "festivus-pole.glb"
    ∷ utf16 "gingerbread-man.glb"
    ∷ utf16 "gingerbread-woman.glb"
    ∷ utf16 "lantern-hanging.glb"
    ∷ utf16 "lantern.glb"
    ∷ utf16 "lights-colored.glb"
    ∷ utf16 "lights-green.glb"
    ∷ utf16 "lights-red.glb"
    ∷ utf16 "nutcracker.glb"
    ∷ utf16 "present-a-cube.glb"
    ∷ utf16 "present-a-rectangle.glb"
    ∷ utf16 "present-a-round.glb"
    ∷ utf16 "present-b-cube.glb"
    ∷ utf16 "present-b-rectangle.glb"
    ∷ utf16 "present-b-round.glb"
    ∷ utf16 "reindeer.glb"
    ∷ utf16 "rocks-large.glb"
    ∷ utf16 "rocks-medium.glb"
    ∷ utf16 "rocks-small.glb"
    ∷ utf16 "sled-long.glb"
    ∷ utf16 "sled.glb"
    ∷ utf16 "snow-bunker.glb"
    ∷ utf16 "snow-flat-large.glb"
    ∷ utf16 "snow-flat.glb"
    ∷ utf16 "snow-pile.glb"
    ∷ utf16 "snowflake-a.glb"
    ∷ utf16 "snowflake-b.glb"
    ∷ utf16 "snowflake-c.glb"
    ∷ utf16 "train-locomotive.glb"
    ∷ utf16 "train-tender.glb"
    ∷ utf16 "train-wagon-flat-short.glb"
    ∷ utf16 "train-wagon-flat.glb"
    ∷ utf16 "train-wagon-logs.glb"
    ∷ utf16 "train-wagon-short.glb"
    ∷ utf16 "train-wagon.glb"
    ∷ utf16 "tree-decorated-snow.glb"
    ∷ utf16 "tree-decorated.glb"
    ∷ utf16 "tree-snow-a.glb"
    ∷ utf16 "tree-snow-b.glb"
    ∷ utf16 "tree-snow-c.glb"
    ∷ utf16 "tree.glb"
    ∷ utf16 "wreath-decorated.glb"
    ∷ utf16 "wreath.glb"
    ∷ []
