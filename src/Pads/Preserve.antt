-- ===== src/Pads/Preserve.antt =====
-- Every step of every thread keeps the state of the pads sound.
use zstreamer.Pads.System.{
  World, Step, creates, takes, gives_back, links, gets_peer, looks, unlinks, unrefs_one, IsSound,
}
use zstreamer.Pads.References.{
  creates-IsSound, takes-IsSound, gives_back-IsSound, unrefs_one-IsSound,
}
use zstreamer.Pads.Linking.{links-IsSound, gets_peer-IsSound, looks-IsSound, unlinks-IsSound}

pub Step-IsSound : {w w' : World} → Step w w' → IsSound w → IsSound w'
Step-IsSound (creates w a d f) s = creates-IsSound w a d f s
Step-IsSound (takes w a h) s = takes-IsSound w a h s
Step-IsSound (gives_back w a h) s = gives_back-IsSound w a h s
Step-IsSound (links w a b n ha hb) s = links-IsSound w a b n ha hb s
Step-IsSound (gets_peer w a b p h e) s = gets_peer-IsSound w a b p e s
Step-IsSound (looks w a b p h e) s = looks-IsSound w a b p h e s
Step-IsSound (unlinks w c cs ds e) s = unlinks-IsSound w c cs ds e s
Step-IsSound (unrefs_one w a h) s = unrefs_one-IsSound w a h s
